-- ===== src/Session/Removal.antt =====
-- What takes mails out of the view of `ImapSession` (crates/bridge/src/imap/session.rs): CLOSE,
-- EXPUNGE, MOVE and the news of the store.
use tutabridge.Prelude.{
  ℕ, String, Bool, true, false, not, ◌&&◌, Option, none, some, List, [], ◌∷◌, ◌++◌, map, ◌=s◌, ◌==◌,
  if◌then◌else◌, keep, any, length,
}
use tutabridge.Model.{IdTuple, FolderInfo, MailSetKind}
use tutabridge.MailStore.{
  StoredMail, MailStore, element_id, holds_id, get_folder, folder_by_imap_path,
}
use tutabridge.Session.State.{
  authenticated, CachedMail, ImapSession, ok, no, exists, expunge, Call, trash_mails, delete_mails,
  move_mails, Reply, answer, refresh_mails,
}
use tutabridge.Session.Sets.{Part, resolve_sequence_set, expunge_from, departed_from, sort_desc}
use tutabridge.Session.Commands.{is_selected, ids_at}

unfoldable pub cmd_close : String → ImapSession → Reply
cmd_close tag s =
    answer (record s { state = authenticated; selected_folder = none; mails = [] }) (ok tag ∷ [])

pub ids_of : List CachedMail → List IdTuple
ids_of [] = []
ids_of (m ∷ ms) = let rest = ids_of ms in elim m.mail.id [ none ↦ rest | some id ↦ id ∷ rest ]

deletes_for_good : MailSetKind → Bool
deletes_for_good MailSetKind.trash = true
deletes_for_good MailSetKind.spam = true
deletes_for_good _ = false

pub expunge_call : Option FolderInfo → List IdTuple → Call
unfolding deletes_for_good
expunge_call none ids = trash_mails ids
expunge_call (some folder) ids =
    if deletes_for_good folder.kind then delete_mails ids folder else trash_mails ids

-- The mails that go are announced and taken out.
abbrev pub leave : (CachedMail → Bool) → String → List Call → ImapSession → Reply
leave goes tag calls s =
    let gone = expunge_from goes 1 s.mails in
    record {
      session = record s { mails = gone.1 };
      lines = map expunge gone.0 ++ ok tag ∷ [];
      calls = calls;
    }

-- `accepted` is whether the server carries a call out.
unfoldable pub request :
    (Call → Bool) → List IdTuple → Call → (List Call → Reply) → ImapSession → String → Reply
request accepted [] call go s tag = go []
request accepted (id ∷ ids) call go s tag =
    if accepted call
    then go (call ∷ [])
    else record { session = s; lines = no tag ∷ []; calls = call ∷ [] }

unfoldable pub cmd_expunge : (Call → Bool) → String → ImapSession → Reply
unfolding request expunge_from expunge_call ids_of
cmd_expunge accepted tag s =
    let ids = ids_of (keep (λ m. m.deleted) s.mails) in
    if is_selected s.state
    then request accepted ids (expunge_call s.selected_folder ids)
        (λ calls. leave (λ m. m.deleted) tag calls s) s tag
    else answer s (no tag ∷ [])

pub is_among : List IdTuple → CachedMail → Bool
is_among ids m = elim (element_id m.mail) [
  | none ↦ false
  | some eid ↦ any (λ id. id.element_id =s eid) ids
]

-- A set that names no mail is answered at once.
unfoldable pub move_to : (Call → Bool) → String → List IdTuple → FolderInfo → ImapSession → Reply
unfolding request expunge_from is_among
move_to accepted tag [] target s = answer s (ok tag ∷ [])
move_to accepted tag (id ∷ ids) target s =
    request accepted (id ∷ ids) (move_mails (id ∷ ids) target)
      (λ calls. leave (is_among (id ∷ ids)) tag calls s) s tag

unfoldable pub cmd_move :
    (String → String → Bool)
    → MailStore
    → (Call → Bool)
    → String
    → List Part
    → String
    → Bool
    → ImapSession
    → Reply
unfolding move_to folder_by_imap_path ids_at resolve_sequence_set
cmd_move same_path store accepted tag set name uid_mode s =
    let ids = ids_at (resolve_sequence_set s.mails set uid_mode) 0 s.mails in
    if is_selected s.state
    then elim (folder_by_imap_path same_path name store) [
      | none ↦ answer s (no tag ∷ [])
      | some target ↦ move_to accepted tag ids target s
    ]
    else answer s (no tag ∷ [])

-- A mail of the session that the folder does not list any more.
pub has_departed : List StoredMail → CachedMail → Bool
has_departed stored m = elim (element_id m.mail) [
  | none ↦ false
  | some eid ↦ not (any (holds_id eid) stored)
]

holds_cached : String → CachedMail → Bool
holds_cached eid m = elim (element_id m.mail) [ none ↦ false | some e ↦ e =s eid ]

pub is_added : List CachedMail → StoredMail → Bool
unfolding holds_cached
is_added mails m = elim (element_id m.mail) [
  | none ↦ false
  | some eid ↦ not (any (holds_cached eid) mails)
]

abbrev pub is_empty : List ℕ → Bool
is_empty [] = true
is_empty (n ∷ ns) = false

unfoldable pub check_folder : MailStore → FolderInfo → ImapSession → Reply
unfolding departed_from sort_desc has_departed is_added refresh_mails get_folder
check_folder store folder s =
    let listed = get_folder folder.id store in
    let expunges = departed_from (has_departed listed) 0 s.mails in
    let fresh = refresh_mails store folder.id s in
    if is_empty expunges && not (any (is_added s.mails) listed) && length listed == length s.mails
    then answer s []
    else answer fresh (map expunge (sort_desc expunges) ++ exists (length fresh.mails) ∷ [])

unfoldable pub check_new_mail : MailStore → ImapSession → Reply
unfolding check_folder
check_new_mail store s = elim s.selected_folder [
  | none ↦ answer s []
  | some folder ↦ check_folder store folder s
]
