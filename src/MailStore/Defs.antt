-- ===== src/MailStore/Defs.antt =====
-- The state of `MailStore` (crates/bridge/src/sync.rs) and its readers. The order in which a hash
-- map is walked is that of an association list here. Locks are not modelled: an operation holds the
-- lock of `folders` from its first read to its last write. The bounded cache of bodies is a
-- component of its own.
use tutabridge.Prelude.{
  ℕ, String, Bool, false, Option, none, some, List, [], ◌∷◌, ◌=s◌, any, first, length,
}
use tutabridge.Prelude.Assoc.{lookup}
use tutabridge.Model.{Mail, FolderInfo}

pub record StoredMail : Type 0 where
  pub mail : Mail
  pub body_loaded : Bool
  pub uid : ℕ
  pub attachments_pending : Bool

-- `generation` and `details_generation` are the values that the two watch channels show,
-- `gen_counter` the counter that both draw from.
pub record MailStore : Type 0 where
  pub folders : List (String × List StoredMail)
  pub folder_list : List FolderInfo
  pub generation : ℕ
  pub details_generation : ℕ
  pub gen_counter : ℕ

abbrev pub new_store : MailStore
new_store = record {
  folders = [];
  folder_list = [];
  generation = 0;
  details_generation = 0;
  gen_counter = 0;
}

abbrev pub element_id : Mail → Option String
element_id m = elim m.id [ none ↦ none | some t ↦ some t.element_id ]

-- `m.mail._id…element_id == Some(eid)`
unfoldable pub is_mail : String → Mail → Bool
is_mail eid m = elim (element_id m) [ none ↦ false | some e ↦ e =s eid ]

abbrev pub holds_id : String → StoredMail → Bool
holds_id eid m = is_mail eid m.mail

abbrev pub or_empty : Option (List StoredMail) → List StoredMail
or_empty none = []
or_empty (some mails) = mails

unfoldable pub get_folder : String → MailStore → List StoredMail
get_folder folder s = or_empty (lookup folder s.folders)

unfoldable pub mail_in_folder : String → String → MailStore → Option StoredMail
unfolding get_folder
mail_in_folder folder eid s = first (holds_id eid) (get_folder folder s)

unfoldable pub folder_count : String → MailStore → ℕ
unfolding get_folder
folder_count folder s = length (get_folder folder s)

-- `same_path` is `==` or `eq_ignore_ascii_case`.
unfoldable pub folder_by_imap_path :
    (String → String → Bool) → String → MailStore → Option FolderInfo
folder_by_imap_path same_path path s = first (λ f. same_path f.imap_path path) s.folder_list

unfoldable pub find_in : String → List (String × List StoredMail) → Option (String × StoredMail)
find_in eid [] = none
find_in eid ((folder, mails) ∷ rest) =
    let later = find_in eid rest in
    elim (first (holds_id eid) mails) [ none ↦ later | some m ↦ some (folder, m) ]

unfoldable pub find_mail_anywhere : String → MailStore → Option (String × StoredMail)
unfolding find_in
find_mail_anywhere eid s = find_in eid s.folders

unfoldable pub is_mail_anywhere : String → MailStore → Bool
is_mail_anywhere eid s = any (λ f. any (holds_id eid) f.1) s.folders
