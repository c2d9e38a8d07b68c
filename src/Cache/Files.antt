-- ===== src/Cache/Files.antt =====
-- The message files, the full-text index, and the operations that touch several tables
-- (crates/bridge/src/store.rs). Whether an indexed body matches a term is SQLite's to say.
use tutabridge.Prelude.{String, Bool, true, false, Option, none, some, List, [], ◌∷◌, keep, map}
use tutabridge.Prelude.Assoc.{lookup, insert, remove}
use tutabridge.Cache.Tables.{LocalStore}
use tutabridge.Cache.Rows.{delete_row}

unfoldable pub write_eml : String → String → LocalStore → LocalStore
write_eml eid rfc2822 s = record s { emls = insert eid rfc2822 s.emls }

unfoldable pub read_eml : String → LocalStore → Option String
read_eml eid s = lookup eid s.emls

unfoldable pub has_eml : String → LocalStore → Bool
has_eml eid s = elim (lookup eid s.emls) [ none ↦ false | some rfc2822 ↦ true ]

unfoldable pub delete_eml : String → LocalStore → LocalStore
delete_eml eid s = record s { emls = remove eid s.emls }

unfoldable pub unindex_body : String → LocalStore → LocalStore
unindex_body eid s = record s { fts = remove eid s.fts }

-- The old row goes first, for FTS5 has no upsert.
unfoldable index_body : String → String → LocalStore → LocalStore
index_body eid text s = record s { fts = (eid, text) ∷ remove eid s.fts }

-- `matches` decides MATCH for the expression that the term is turned into; `expr` is that
-- expression, `none` if nothing of the term is searchable.
unfoldable pub search_body :
    (String → Option String) → (String → String → Bool) → String → LocalStore → List String
search_body expr matches term s = elim (expr term) [
  | none ↦ []
  | some e ↦ map (λ row. row.0) (keep (λ row. matches e row.1) s.fts)
]

-- The message files that `reset` removes are all those of the directory.
unfoldable reset : LocalStore → LocalStore
reset s = record s {
  mails = [];
  next_uids = [];
  meta = ("schema_version", "4") ∷ [];
  fts = [];
  emls = [];
}

unfoldable pub delete_mail : String → LocalStore → LocalStore
unfolding delete_eml unindex_body
delete_mail eid s = unindex_body eid (delete_eml eid (record s { mails = delete_row eid s.mails }))
