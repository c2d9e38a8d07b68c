-- ===== src/MailStore/Lookup.antt =====
-- What the writers of `MailStore` (crates/bridge/src/sync.rs) do to the folders, folder by folder.
use tutabridge.Prelude.{
  ◌≡◌, refl, String, true, none, some, List, [], ◌∷◌, arith, ◌=s◌, eq_iff, if◌then◌else◌, any, keep,
  Option-cases, inl, inr,
}
use tutabridge.Prelude.Assoc.{lookup, lookup-insert}
use tutabridge.Model.{Mail}
use tutabridge.MailStore.Defs.{
  StoredMail, MailStore, element_id, holds_id, get_folder, or_empty, is_mail_anywhere,
}
use tutabridge.MailStore.Ops.{
  set_folder, drop_mail, remove_mail_from_folder, upsert_mail, upsert_mail_in_folder,
  drop_everywhere, remove_mail_everywhere, update_first, refresh_everywhere, refresh_mail_in_place,
  prune_unknown_folders,
}

pub get_folder-set_folder :
    (g f : String) (mails : List StoredMail) (s : MailStore)
    → get_folder f (set_folder g mails s) ≡ (if g =s f then mails else get_folder f s)
unfolding get_folder set_folder
get_folder-set_folder g f mails s = ground (arith, lookup-insert g f mails s.folders)

pub get_folder-upsert :
    (g f eid : String) (m : StoredMail) (s : MailStore)
    → element_id m.mail ≡ some eid
    → get_folder f (upsert_mail_in_folder g m s)
      ≡ (if g =s f then upsert_mail eid m (get_folder g s) else get_folder f s)
unfolding upsert_mail_in_folder get_folder
get_folder-upsert g f eid m s e =
    rw (e, upsert_mail_in_folder)
      (ground (arith, lookup-insert g f (upsert_mail eid m (get_folder g s)) s.folders))

pub get_folder-remove :
    (g f eid : String) (s : MailStore)
    → get_folder f (remove_mail_from_folder g eid s).0
      ≡ (if g =s f then drop_mail eid (get_folder f s) else get_folder f s)
unfolding remove_mail_from_folder get_folder drop_mail
get_folder-remove g f eid s = elim (Option-cases (lookup g s.folders)) [
  | inl e ↦ rw (e, remove_mail_from_folder) (ground (arith, eq_iff g f))
  | inr (mails, e) ↦
      rw (e, remove_mail_from_folder)
        (ground (arith, eq_iff g f, lookup-insert g f (drop_mail eid mails) s.folders))
]

lookup-drop_everywhere :
    (f eid : String) (fs : List (String × List StoredMail))
    → or_empty (lookup f (drop_everywhere eid fs)) ≡ drop_mail eid (or_empty (lookup f fs))
unfolding lookup drop_everywhere drop_mail
lookup-drop_everywhere f eid [] = refl
lookup-drop_everywhere f eid ((g, mails) ∷ fs) = ground (arith, lookup-drop_everywhere f eid fs)

pub get_folder-remove_everywhere :
    (f eid : String) (s : MailStore)
    → get_folder f (remove_mail_everywhere eid s) ≡ drop_mail eid (get_folder f s)
unfolding remove_mail_everywhere get_folder
get_folder-remove_everywhere f eid s = ground (arith, lookup-drop_everywhere f eid s.folders)

lookup-refresh_everywhere :
    (f eid : String) (mail : Mail) (fs : List (String × List StoredMail))
    → or_empty (lookup f (refresh_everywhere eid mail fs))
      ≡ update_first (holds_id eid) (λ m. record m { mail = mail }) (or_empty (lookup f fs))
unfolding lookup refresh_everywhere update_first
lookup-refresh_everywhere f eid mail [] = refl
lookup-refresh_everywhere f eid mail ((g, mails) ∷ fs) =
    ground (arith, lookup-refresh_everywhere f eid mail fs)

pub get_folder-refresh :
    (f eid : String) (mail : Mail) (s : MailStore)
    → element_id mail ≡ some eid
    → get_folder f (refresh_mail_in_place mail s)
      ≡ update_first (holds_id eid) (λ m. record m { mail = mail }) (get_folder f s)
unfolding refresh_mail_in_place get_folder
get_folder-refresh f eid mail s e =
    rw (e, refresh_mail_in_place) (ground (arith, lookup-refresh_everywhere f eid mail s.folders))

lookup-keep_known :
    (f : String) (known : List String) (fs : List (String × List StoredMail))
    → lookup f (keep (λ g. any (λ k. k =s g.0) known) fs)
      ≡ (if any (λ k. k =s f) known then lookup f fs else none)
unfolding lookup
lookup-keep_known f known [] = ground arith
lookup-keep_known f known ((g, mails) ∷ fs) =
    ground (arith, lookup-keep_known f known fs, eq_iff g f)

pub get_folder-prune :
    (f : String) (known : List String) (s : MailStore)
    → get_folder f (prune_unknown_folders known s).0
      ≡ (if any (λ k. k =s f) known then get_folder f s else [])
unfolding prune_unknown_folders get_folder
get_folder-prune f known s = ground (arith, lookup-keep_known f known s.folders)

any_folder :
    (f eid : String) (fs : List (String × List StoredMail))
    → any (holds_id eid) (or_empty (lookup f fs)) ≡ true
    → any (λ g. any (holds_id eid) g.1) fs ≡ true
unfolding lookup
any_folder f eid [] h = h
any_folder f eid ((g, mails) ∷ fs) h = ground (arith, any_folder f eid fs)

-- A mail that some folder holds is found.
pub anywhere_of_folder :
    (f eid : String) (s : MailStore)
    → any (holds_id eid) (get_folder f s) ≡ true
    → is_mail_anywhere eid s ≡ true
unfolding get_folder is_mail_anywhere
anywhere_of_folder f eid s h = any_folder f eid s.folders h
