-- ===== src/MailStore/Ops.antt =====
-- The writers of `MailStore` (crates/bridge/src/sync.rs).
use tutabridge.Prelude.{
  ◌+◌, String, Bool, true, false, not, none, some, List, [], ◌∷◌, map, ◌==◌, if◌then◌else◌, any,
  keep, length, ◌=s◌,
}
use tutabridge.Prelude.Assoc.{lookup, insert}
use tutabridge.Model.{Mail, FolderInfo}
use tutabridge.MailStore.Defs.{StoredMail, MailStore, element_id, holds_id, get_folder}

unfoldable pub bump_generation : MailStore → MailStore
bump_generation s = record s { generation = s.gen_counter + 1; gen_counter = s.gen_counter + 1 }

unfoldable pub bump_details_generation : MailStore → MailStore
bump_details_generation s = record s {
  details_generation = s.gen_counter + 1;
  gen_counter = s.gen_counter + 1;
}

unfoldable pub set_folder_list : List FolderInfo → MailStore → MailStore
unfolding bump_generation
set_folder_list folders s = bump_generation (record s { folder_list = folders })

unfoldable pub set_folder : String → List StoredMail → MailStore → MailStore
unfolding bump_generation
set_folder folder mails s = bump_generation (record s { folders = insert folder mails s.folders })

-- `iter_mut().find`: the change is made to the first mail that has the id.
unfoldable pub update_first :
    (StoredMail → Bool) → (StoredMail → StoredMail) → List StoredMail → List StoredMail
update_first p f [] = []
update_first p f (m ∷ ms) = if p m then f m ∷ ms else m ∷ update_first p f ms

abbrev bump_if : Bool → MailStore → MailStore
bump_if changed s = if changed then bump_generation s else s

unfoldable pub refresh_everywhere :
    String → Mail → List (String × List StoredMail) → List (String × List StoredMail)
unfolding update_first
refresh_everywhere eid mail [] = []
refresh_everywhere eid mail ((folder, mails) ∷ rest) =
    (folder, update_first (holds_id eid) (λ m. record m { mail = mail }) mails)
    ∷ refresh_everywhere eid mail rest

unfoldable pub refresh_mail_in_place : Mail → MailStore → MailStore
unfolding refresh_everywhere bump_generation
refresh_mail_in_place mail s = elim (element_id mail) [
  | none ↦ s
  | some eid ↦
      bump_if (any (λ f. any (holds_id eid) f.1) s.folders)
        (record s { folders = refresh_everywhere eid mail s.folders })
]

unfoldable pub drop_mail : String → List StoredMail → List StoredMail
drop_mail eid mails = keep (λ m. not (holds_id eid m)) mails

-- Also whether a mail was removed: the lengths are compared.
unfoldable pub remove_mail_from_folder : String → String → MailStore → MailStore × Bool
unfolding drop_mail bump_generation
remove_mail_from_folder folder eid s = elim (lookup folder s.folders) [
  | none ↦ (s, false)
  | some mails ↦
      let changed = not (length (drop_mail eid mails) == length mails) in
      (
        bump_if changed (record s { folders = insert folder (drop_mail eid mails) s.folders }),
        changed,
      )
]

-- Replace the mail of that id, or append.
unfoldable pub upsert_mail : String → StoredMail → List StoredMail → List StoredMail
upsert_mail eid mail [] = mail ∷ []
upsert_mail eid mail (m ∷ ms) = if holds_id eid m then mail ∷ ms else m ∷ upsert_mail eid mail ms

unfoldable pub upsert_mail_in_folder : String → StoredMail → MailStore → MailStore
unfolding upsert_mail bump_generation get_folder
upsert_mail_in_folder folder mail s = elim (element_id mail.mail) [
  | none ↦ s
  | some eid ↦
      bump_generation (record s {
        folders = insert folder (upsert_mail eid mail (get_folder folder s)) s.folders;
      })
]

pub names_of : List (String × List StoredMail) → List String
names_of fs = map (λ f. f.0) fs

-- Also the ids of the folders that were dropped.
unfoldable pub prune_unknown_folders : List String → MailStore → MailStore × List String
unfolding bump_generation names_of
prune_unknown_folders known s =
    let is_known = λ (f : String × List StoredMail). any (λ k. k =s f.0) known in
    let removed = names_of (keep (λ f. not (is_known f)) s.folders) in
    (bump_if (not (length removed == 0)) (record s { folders = keep is_known s.folders }), removed)

unfoldable pub drop_everywhere :
    String → List (String × List StoredMail) → List (String × List StoredMail)
unfolding drop_mail
drop_everywhere eid fs = map (λ f. (f.0, drop_mail eid f.1)) fs

unfoldable pub remove_mail_everywhere : String → MailStore → MailStore
unfolding drop_everywhere bump_generation
remove_mail_everywhere eid s =
    bump_if (any (λ f. any (holds_id eid) f.1) s.folders)
      (record s { folders = drop_everywhere eid s.folders })

-- The rendered body goes into the cache of bodies, which is not part of this state.
unfoldable pub update_complete_mail : String → String → MailStore → MailStore
unfolding update_first bump_details_generation
update_complete_mail folder eid s = bump_details_generation (elim (lookup folder s.folders) [
  | none ↦ s
  | some mails ↦ record s {
    folders =
        insert folder
          (update_first (holds_id eid)
            (λ m. record m { body_loaded = true; attachments_pending = false }) mails)
          s.folders;
  }
])
