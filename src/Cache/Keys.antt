-- ===== src/Cache/Keys.antt =====
-- What the upsert of one row leaves in the table `mails` (crates/bridge/src/store.rs).
use tutabridge.Prelude.{
  ◌≡◌, ◌≢◌, String, Option, none, some, List, [], ◌∷◌, arith, ◌=s◌, eq_iff, first,
}
use tutabridge.Cache.Tables.{MailMetadata, LocalStore}
use tutabridge.Cache.Rows.{overwrite, upsert_row, upsert_mail_metadata}

-- The row of a mail.
abbrev pub find_row : String → List MailMetadata → Option MailMetadata
find_row eid rows = first (λ row. row.element_id =s eid) rows

abbrev pub merged : MailMetadata → Option MailMetadata → MailMetadata
merged meta none = meta
merged meta (some row) = overwrite meta row

upsert_row-same :
    (meta : MailMetadata) (rows : List MailMetadata)
    → find_row meta.element_id (upsert_row overwrite meta rows)
      ≡ some (merged meta (find_row meta.element_id rows))
unfolding upsert_row overwrite
upsert_row-same meta [] = ground (arith, eq_iff meta.element_id meta.element_id)
upsert_row-same meta (row ∷ rows) =
    ground (arith, upsert_row-same meta rows, eq_iff meta.element_id meta.element_id)

upsert_row-other :
    (meta : MailMetadata) (eid : String) (rows : List MailMetadata)
    → eid ≢ meta.element_id
    → find_row eid (upsert_row overwrite meta rows) ≡ find_row eid rows
unfolding upsert_row overwrite
upsert_row-other meta eid [] h = ground (arith, eq_iff meta.element_id eid)
upsert_row-other meta eid (row ∷ rows) h = ground (
  arith,
  upsert_row-other meta eid rows h,
  eq_iff meta.element_id eid,
  eq_iff row.element_id eid,
  eq_iff row.element_id meta.element_id,
)

-- The row of the mail is the new one if it had none, and otherwise the old one with the columns set
-- that the statement sets; the rows of the other mails stay.
pub upsert_mail_metadata_lem :
    (meta : MailMetadata) (s : LocalStore)
    → (find_row meta.element_id (upsert_mail_metadata meta s).mails
        ≡ some (merged meta (find_row meta.element_id s.mails)))
      × ((eid : String)
          → eid ≢ meta.element_id
          → find_row eid (upsert_mail_metadata meta s).mails ≡ find_row eid s.mails)
unfolding upsert_mail_metadata
upsert_mail_metadata_lem meta s =
    (upsert_row-same meta s.mails, λ eid h. upsert_row-other meta eid s.mails h)
