-- ===== src/Handler/Inline.antt =====
-- A mail whose body arrives in the batch (crates/bridge/src/event_handler.rs).
use tutabridge.Prelude.{
  ◌<◌, ◌^◌, ◌≡◌, refl, ap, ◌∙◌, String, true, false, Option, none, some, [], arith, eq_iff,
}
use tutabridge.Prelude.Assoc.{lookup, lookup-insert}
use tutabridge.Model.{FolderInfo, MailDetails, Mail}
use tutabridge.Cache.{LocalStore, next_uid, write_eml, mark_has_details}
use tutabridge.MailStore.{StoredMail, element_id, mail_in_folder}
use tutabridge.Backend.{Backend}
use tutabridge.Sync.{Stores}
use tutabridge.Handler.Create.{PendingMail, inline_body, persist_inline, apply_pending}
use tutabridge.Handler.Move.{arrives, assigned_emls}

inline_body_lem :
    (backend : Backend) (mail : Mail) (o : Option MailDetails) (details : MailDetails)
    → o ≡ some details
    → mail.attachments ≡ []
    → inline_body backend mail o ≡ some (backend.mail_to_rfc2822 mail details)
unfolding inline_body
inline_body_lem backend mail none details d a = ground arith
inline_body_lem backend mail (some e) details d a = rw (a, inline_body) (ground arith)

next_uid-persist :
    (f eid : String) (eml : String) (local : LocalStore)
    → next_uid f (persist_inline eid (some eml) local) ≡ next_uid f local
unfolding next_uid persist_inline mark_has_details write_eml
next_uid-persist f eid eml local = refl

emls-persist :
    (eid eml : String) (local : LocalStore)
    → (lookup eid (persist_inline eid (some eml) local).emls ≡ some eml)
      × ((persist_inline eid (some eml) local).fts ≡ local.fts)
unfolding persist_inline mark_has_details write_eml
emls-persist eid eml local =
    (ground (arith, lookup-insert eid eid eml local.emls, eq_iff eid eid), refl)

-- A mail without attachments whose body came with it, placed in a folder whose counter fits 32 bits,
-- is listed as loaded under the folder's next UID, and its message file holds the rendering; but the
-- full-text index stays as it is, so that it lacks the body.
pub apply_pending-inline :
    (backend : Backend) (target : FolderInfo) (eid : String) (p : PendingMail)
    (details : MailDetails) (s : Stores)
    → p.details ≡ some details
    → p.mail.attachments ≡ []
    → element_id p.mail ≡ some eid
    → next_uid target.id s.local < 2 ^ 32
    → let after = apply_pending backend target eid p s in
      (mail_in_folder target.id eid after.store
        ≡ some (record {
          mail = p.mail;
          body_loaded = true;
          uid = next_uid target.id s.local;
          attachments_pending = false;
        }))
      × (lookup eid after.local.emls ≡ some (backend.mail_to_rfc2822 p.mail details))
      × (after.local.fts ≡ s.local.fts)
unfolding apply_pending
apply_pending-inline backend target eid p details s d a named room =
    let eml = backend.mail_to_rfc2822 p.mail details in
    let written : Stores = record s { local = persist_inline eid (some eml) s.local } in
    let mail : StoredMail = record {
      mail = p.mail;
      body_loaded = true;
      uid = 0;
      attachments_pending = false;
    } in
    let same : (next_uid target.id written.local ≡ next_uid target.id s.local) =
      next_uid-persist target.id eid eml s.local in
    rw (inline_body_lem backend p.mail p.details details d a) (
      arrives target eid mail written (rw same room) named
          ∙ ap (λ n. some (record mail { uid = n })) same,
      rw (assigned_emls target eid mail written).0 (emls-persist eid eml s.local).0,
      rw (assigned_emls target eid mail written).1 (emls-persist eid eml s.local).1,
    )
