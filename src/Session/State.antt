-- ===== src/Session/State.antt =====
-- The state of `ImapSession` and the lines that it answers (crates/bridge/src/imap/session.rs). A
-- line stands for the text that is formatted from its arguments. The full-text index and the number
-- that tags the log are not read by what is modelled.
use tutabridge.Prelude.{
  ℕ, ◌+◌, ◌%◌, ◌^◌, String, Bool, false, Option, none, List, [], ◌∷◌, ltb, leb, if◌then◌else◌,
}
use tutabridge.Prelude.Text.{Text}
use tutabridge.Model.{IdTuple, Mail, FolderInfo}
use tutabridge.MailStore.{StoredMail, MailStore, get_folder}

pub data State : Type 0 where
  not_authenticated authenticated selected logout : State

pub record CachedMail : Type 0 where
  pub mail : Mail
  pub body_loaded : Bool
  pub uid : ℕ
  pub deleted : Bool

pub record ImapSession : Type 0 where
  pub state : State
  pub selected_folder : Option FolderInfo
  pub mails : List CachedMail
  pub uid_next : ℕ
  pub idle_tag : Option String
  pub auth_tag : Option String
  pub password_hash : Option String

abbrev pub new_session : Option String → ImapSession
new_session password_hash = record {
  state = not_authenticated;
  selected_folder = none;
  mails = [];
  uid_next = 1;
  idle_tag = none;
  auth_tag = none;
  password_hash = password_hash;
}

pub data Line : Type 0 where
  ok no bad : String → Line
  capabilities namespaces recent flags permanent_flags uid_validity bye list_root : Line
  continue_auth continue_idle continue_literal : Line
  exists expunge uid_next unseen : ℕ → Line
  list_item : Option String → String → Line
  status_item : String → ℕ → ℕ → ℕ → Line
  content : Text → Line
  no_body : String → Text → Line
  found : List ℕ → Line
  append_uid : String → ℕ → Line

-- What the session asks of the backend. A request for the details of a mail stands, if it succeeds, for
-- that for the attachments, too.
pub data Call : Type 0 where
  set_unread_status : List IdTuple → Bool → Call
  trash_mails : List IdTuple → Call
  delete_mails move_mails : List IdTuple → FolderInfo → Call
  load_mail_details : Mail → Call
  sent_mail_element_id : Text → Call

pub record Reply : Type 0 where
  pub session : ImapSession
  pub lines : List Line
  pub calls : List Call

abbrev pub answer : ImapSession → List Line → Reply
answer s lines = record { session = s; lines = lines; calls = [] }

-- `sort_by_key(|m| m.uid)`, which is stable.
pub insert_by_uid : StoredMail → List StoredMail → List StoredMail
insert_by_uid m [] = m ∷ []
insert_by_uid m (x ∷ xs) = if leb m.uid x.uid then m ∷ x ∷ xs else x ∷ insert_by_uid m xs

unfoldable pub sort_by_uid : List StoredMail → List StoredMail
unfolding insert_by_uid
sort_by_uid [] = []
sort_by_uid (m ∷ ms) = insert_by_uid m (sort_by_uid ms)

unfoldable pub cached_of : List StoredMail → List CachedMail
cached_of [] = []
cached_of (m ∷ ms) =
    record { mail = m.mail; body_loaded = m.body_loaded; uid = m.uid; deleted = false }
    ∷ cached_of ms

-- `uid + 1` is a sum of 32-bit numbers.
unfoldable pub uid_next_after : ℕ → List StoredMail → ℕ
uid_next_after next [] = next
uid_next_after next (m ∷ ms) =
    uid_next_after (if ltb m.uid next then next else (m.uid + 1) % 2 ^ 32) ms

unfoldable pub refresh_mails : MailStore → String → ImapSession → ImapSession
unfolding sort_by_uid cached_of uid_next_after get_folder
refresh_mails store folder s =
    let stored = sort_by_uid (get_folder folder store) in
    record s { mails = cached_of stored; uid_next = uid_next_after s.uid_next stored }
