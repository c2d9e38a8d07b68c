-- ===== src/Session/Commands.antt =====
-- Commands of `ImapSession` (crates/bridge/src/imap/session.rs) that open and mark. A command is
-- taken after its text is parsed: a password as the last word of the arguments spells it, a mailbox
-- by its decoded name.
use tutabridge.Prelude.{
  ℕ, suc, ◌+◌, String, Bool, true, false, not, Option, none, some, List, [], ◌∷◌, ◌++◌, map, ◌=s◌,
  ◌==◌, if◌then◌else◌, keep, any, length,
}
use tutabridge.Model.{IdTuple, FolderInfo}
use tutabridge.MailStore.{StoredMail, MailStore, get_folder, folder_by_imap_path}
use tutabridge.Session.State.{
  State, not_authenticated, authenticated, selected, logout, CachedMail, ImapSession, Line, ok, no,
  recent, flags, permanent_flags, uid_validity, list_root, exists, uid_next, unseen, list_item,
  status_item, Call, set_unread_status, Reply, answer, refresh_mails,
}
use tutabridge.Session.Sets.{Part, resolve_sequence_set}

pub record StoreArgs : Type 0 where
  pub set : List Part
  pub adding : Bool
  pub removing : Bool
  pub seen : Bool
  pub deleted : Bool

abbrev pub is_selected : State → Bool
is_selected selected = true
is_selected _ = false

abbrev pub is_new : State → Bool
is_new not_authenticated = true
is_new _ = false

abbrev pub is_logout : State → Bool
is_logout logout = true
is_logout _ = false

unfoldable pub accepts : Option String → String → Bool
accepts none password = true
accepts (some expected) password = password =s expected

unfoldable pub cmd_login : String → String → ImapSession → Reply
unfolding accepts
cmd_login tag password s =
    if accepts s.password_hash password
    then answer (record s { state = authenticated }) (ok tag ∷ [])
    else answer s (no tag ∷ [])

-- What follows the first zero byte, if there is one.
before_zero : List ℕ → List ℕ
before_zero [] = []
before_zero (b ∷ bs) = let rest = before_zero bs in if b == 0 then [] else b ∷ rest

after_zero : List ℕ → Option (List ℕ)
after_zero [] = none
after_zero (b ∷ bs) = let rest = after_zero bs in if b == 0 then some bs else rest

-- The last of the at most three parts, if there are two.
unfoldable pub plain_password : List ℕ → Option (List ℕ)
unfolding after_zero
plain_password bytes = elim (after_zero bytes) [
  | none ↦ none
  | some rest ↦ elim (after_zero rest) [ none ↦ some rest | some last ↦ some last ]
]

-- `utf8` is `String::from_utf8_lossy`.
unfoldable pub check_password : (List ℕ → String) → String → Option (List ℕ) → ImapSession → Reply
unfolding accepts
check_password utf8 tag none s = answer s (no tag ∷ [])
check_password utf8 tag (some bytes) s =
    if accepts s.password_hash (utf8 bytes)
    then answer (record s { state = authenticated }) (ok tag ∷ [])
    else answer s (no tag ∷ [])

abbrev pub decoded_password : Option (List ℕ) → Option (List ℕ)
decoded_password none = none
decoded_password (some bytes) = plain_password bytes

unfoldable pub handle_auth_response : (List ℕ → String) → Option (List ℕ) → ImapSession → Reply
unfolding check_password plain_password
handle_auth_response utf8 decoded s = elim s.auth_tag [
  | none ↦ answer s []
  | some tag ↦ check_password utf8 tag (decoded_password decoded) (record s { auth_tag = none })
]

unfoldable pub end_idle : ImapSession → Reply
end_idle s = elim s.idle_tag [
  | none ↦ answer s []
  | some tag ↦ answer (record s { idle_tag = none }) (ok tag ∷ [])
]

unfoldable pub cmd_list : MailStore → String → Bool → ImapSession → Reply
cmd_list store tag root s =
    if is_new s.state
    then answer s (no tag ∷ [])
    else if root
    then answer s (list_root ∷ ok tag ∷ [])
    else answer s (map (λ f. list_item f.special_use f.imap_path) store.folder_list ++ ok tag ∷ [])

pub first_unseen : ℕ → List CachedMail → ℕ
first_unseen n [] = 0
first_unseen n (m ∷ ms) = let rest = first_unseen (n + 1) ms in if m.mail.unread then n else rest

select_lines : String → ImapSession → List Line
unfolding first_unseen
select_lines tag s =
    exists (length s.mails)
      ∷ recent
      ∷ flags
      ∷ permanent_flags
      ∷ uid_validity
      ∷ uid_next s.uid_next
      ∷ (if first_unseen 1 s.mails == 0 then [] else unseen (first_unseen 1 s.mails) ∷ [])
    ++ ok tag ∷ []

unfoldable pub open_folder : MailStore → String → FolderInfo → ImapSession → Reply
unfolding refresh_mails select_lines
open_folder store tag folder s =
    let opened =
      refresh_mails store folder.id
        (record s { selected_folder = some folder; state = selected }) in
    answer opened (select_lines tag opened)

unfoldable pub cmd_select :
    (String → String → Bool) → MailStore → String → String → ImapSession → Reply
unfolding open_folder folder_by_imap_path
cmd_select same_path store tag name s =
    if is_new s.state
    then answer s (no tag ∷ [])
    else elim (folder_by_imap_path same_path name store) [
      | none ↦ answer s (no tag ∷ [])
      | some folder ↦ open_folder store tag folder s
    ]

abbrev mails_of : Option FolderInfo → MailStore → List StoredMail
mails_of none store = []
mails_of (some folder) store = get_folder folder.id store

-- The UIDNEXT is that of the session.
unfoldable pub cmd_status :
    (String → String → Bool) → MailStore → String → String → ImapSession → Reply
unfolding folder_by_imap_path get_folder
cmd_status same_path store tag name s =
    let stored = mails_of (folder_by_imap_path same_path name store) store in
    if is_new s.state
    then answer s (no tag ∷ [])
    else answer s (
        status_item name (length stored) (length (keep (λ m. m.mail.unread) stored)) s.uid_next
        ∷ ok tag
        ∷ [])

-- The mails at the given positions, changed.
unfoldable pub change_at :
    (CachedMail → CachedMail) → List ℕ → ℕ → List CachedMail → List CachedMail
change_at f indices i [] = []
change_at f indices i (m ∷ ms) =
    (if any (λ j. j == i) indices then f m else m) ∷ change_at f indices (suc i) ms

unfoldable pub ids_at : List ℕ → ℕ → List CachedMail → List IdTuple
ids_at indices i [] = []
ids_at indices i (m ∷ ms) =
    let rest = ids_at indices (suc i) ms in
    if any (λ j. j == i) indices then elim m.mail.id [ none ↦ rest | some id ↦ id ∷ rest ] else rest

abbrev pub set_unread : Bool → CachedMail → CachedMail
set_unread unread m = record m { mail = record m.mail { unread = unread } }

abbrev unless_empty : List IdTuple → Call → List Call
unless_empty [] call = []
unless_empty (id ∷ ids) call = call ∷ []

-- What the server answers to `set_unread_status` is only logged.
unfoldable pub cmd_store : String → StoreArgs → Bool → ImapSession → Reply
unfolding change_at ids_at resolve_sequence_set
cmd_store tag args uid_mode s =
    let indices = resolve_sequence_set s.mails args.set uid_mode in
    let ids = ids_at indices 0 s.mails in
    let read =
      if args.seen then change_at (set_unread (not args.adding)) indices 0 s.mails else s.mails in
    let marked =
      if args.deleted
      then change_at (λ m. record m { deleted = not args.removing }) indices 0 read
      else read in
    if is_selected s.state
    then record {
      session = record s { mails = marked };
      lines = ok tag ∷ [];
      calls = if args.seen then unless_empty ids (set_unread_status ids (not args.adding)) else [];
    }
    else answer s (no tag ∷ [])
