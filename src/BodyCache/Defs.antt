-- ===== src/BodyCache/Defs.antt =====
-- The state of `BodyCache` and its operations (crates/bridge/src/body_cache.rs). Both maps are
-- association lists, that of ticks in ascending order. Ticks and sizes are 64-bit numbers. The cache on
-- disk is an argument: what it has for a mail.
use tutabridge.Prelude.{
  ℕ, suc, ◌+◌, ◌-◌, ◌%◌, ◌^◌, ◌&&◌, Option, none, some, String, List, [], ◌∷◌, ◌==◌, ltb, length,
  if◌then◌else◌,
}
use tutabridge.Prelude.Text.{Text, len}
use tutabridge.Prelude.Assoc.{lookup, insert, remove}

pub record BodyEntry (D : Type 0) : Type 0 where
  pub details : Option D
  pub rfc2822 : Text

pub record CacheState (D : Type 0) : Type 0 where
  pub entries : List (String × (BodyEntry D × ℕ))
  pub order : List (ℕ × String)
  pub total_bytes : ℕ
  pub tick : ℕ

abbrev pub max_cache_bytes : ℕ
max_cache_bytes = 268435456

-- `BTreeMap::insert` and `BTreeMap::remove`.
unfoldable pub put_tick : ℕ → String → List (ℕ × String) → List (ℕ × String)
put_tick t eid [] = (t, eid) ∷ []
put_tick t eid (e ∷ es) =
    let rest = put_tick t eid es in
    if ltb t e.0 then (t, eid) ∷ e ∷ es else if t == e.0 then (t, eid) ∷ es else e ∷ rest

unfoldable pub drop_tick : ℕ → List (ℕ × String) → List (ℕ × String)
drop_tick t [] = []
drop_tick t (e ∷ es) = let rest = drop_tick t es in if e.0 == t then rest else e ∷ rest

module _ {D : Type 0} where
  abbrev pub empty_state : CacheState D
  empty_state = record { entries = []; order = []; total_bytes = 0; tick = 0 }

  abbrev pub size_of : Option (BodyEntry D × ℕ) → ℕ
  size_of none = 0
  size_of (some old) = len old.0.rfc2822

  abbrev pub without_old : Option (BodyEntry D × ℕ) → List (ℕ × String) → List (ℕ × String)
  without_old none order = order
  without_old (some old) order = drop_tick old.1 order

  -- The loop that evicts, along the ticks from the coldest on. The entry with the tick `now` stays.
  unfoldable pub evict :
      ℕ → ℕ → List (ℕ × String) → List (String × (BodyEntry D × ℕ)) → ℕ → CacheState D
  evict max_bytes now [] entries total = record {
    entries = entries;
    order = [];
    total_bytes = total;
    tick = now;
  }
  evict max_bytes now (e ∷ es) entries total =
      let rest =
        evict max_bytes now es (remove e.1 entries) (total - size_of (lookup e.1 entries)) in
      let here : CacheState D = record {
        entries = entries;
        order = e ∷ es;
        total_bytes = total;
        tick = now;
      } in
      if ltb max_bytes total && ltb 1 (length entries)
      then if e.0 == now then here else rest
      else here

  unfoldable pub insert_entry : ℕ → String → BodyEntry D → CacheState D → CacheState D
  unfolding evict put_tick drop_tick
  insert_entry max_bytes eid entry st =
      let now = suc st.tick % 2 ^ 64 in
      let old = lookup eid st.entries in
      evict max_bytes now (put_tick now eid (without_old old st.order))
        (insert eid (entry, now) st.entries) ((st.total_bytes - size_of old) + len entry.rfc2822)

  unfoldable pub cached : String → CacheState D → Option (BodyEntry D) × CacheState D
  unfolding put_tick drop_tick
  cached eid st =
      let now = suc st.tick % 2 ^ 64 in
      elim (lookup eid st.entries) [
        | none ↦ (none, record st { tick = now })
        | some e ↦ (
          some e.0,
          record st {
            entries = insert eid (e.0, now) st.entries;
            order = put_tick now eid (drop_tick e.1 st.order);
            tick = now;
          },
        )
      ]

  unfoldable pub update_rfc2822 : ℕ → String → Text → CacheState D → CacheState D
  unfolding insert_entry
  update_rfc2822 max_bytes eid rfc2822 st = elim (lookup eid st.entries) [
    | none ↦ st
    | some e ↦ insert_entry max_bytes eid (record { details = e.0.details; rfc2822 = rfc2822 }) st
  ]

  -- `on_disk` is what `read_eml` gives, without a store nothing.
  abbrev from_disk : ℕ → String → Option Text → CacheState D → Option (BodyEntry D) × CacheState D
  from_disk max_bytes eid none st = (none, st)
  from_disk max_bytes eid (some rfc2822) st =
      cached eid (insert_entry max_bytes eid (record { details = none; rfc2822 = rfc2822 }) st)

  unfoldable pub get : ℕ → String → Option Text → CacheState D → Option (BodyEntry D) × CacheState D
  unfolding cached insert_entry
  get max_bytes eid on_disk st = elim (cached eid st).0 [
    | none ↦ from_disk max_bytes eid on_disk (cached eid st).1
    | some entry ↦ cached eid st
  ]
