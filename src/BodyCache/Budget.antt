-- ===== src/BodyCache/Budget.antt =====
-- What the cache of bodies keeps true (crates/bridge/src/body_cache.rs).
use tutabridge.Prelude.{
  ℕ, suc, ◌+◌, ◌-◌, ◌%◌, ◌^◌, ◌≤◌, ◌<◌, arith, ◌≡◌, refl, sym, ◌∙◌, true, false, ◌&&◌, Option, none,
  some, String, List, [], ◌∷◌, ◌=s◌, eq_iff, ◌==◌, ==_iff, ltb, length, All, Bool-cases,
  Option-cases, inl, inr,
}
use tutabridge.Prelude.Text.{len}
use tutabridge.Prelude.Assoc.{lookup, insert, remove}
use tutabridge.BodyCache.Defs.{
  BodyEntry, CacheState, size_of, without_old, put_tick, evict, insert_entry, cached,
}
use tutabridge.BodyCache.Order.{
  has, Ascends, Ascends-higher, drop_tick-Ascends, put_tick-Ascends, has_unique, has-drop_tick,
  has-put_tick, has-put_tick-new,
}
use tutabridge.BodyCache.Entries.{
  Entries, total_of, Unique, total-remove, remove-Unique, total-insert, size-le, insert-Unique,
}

module _ {D : Type 0} where
  -- Every entry stands in the map of ticks.
  abbrev pub Listed : List (ℕ × String) → Entries D → Type 0
  Listed order es = All (λ e. has order e.1.1 e.0 ≡ true) es

  -- What holds of a cache between two operations.
  abbrev pub IsSound : CacheState D → Type 0
  IsSound st =
      Ascends 0 st.order st.tick
      × Listed st.order st.entries
      × Unique st.entries
      × (st.total_bytes ≡ total_of st.entries)

  remove-Listed :
      (e : ℕ × String) (order : List (ℕ × String)) (es : Entries D)
      → Listed (e ∷ order) es
      → Listed order (remove e.1 es)
  unfolding remove
  remove-Listed e order [] h = tt
  remove-Listed e order (x ∷ es) (h, hs) = elim (Bool-cases (x.0 =s e.1)) [
    | inl d ↦ rw d (remove-Listed e order es hs)
    | inr d ↦
        rw d (ground (arith, h, d, eq_iff x.0 e.1, eq_iff e.1 x.0), remove-Listed e order es hs)
  ]

  only_one :
      (e : ℕ × String) (es : Entries D) → Listed (e ∷ []) es → Unique es → ltb 1 (length es) ≡ false
  unfolding lookup
  only_one e [] h u = ground arith
  only_one e (x ∷ []) h u = ground arith
  only_one e (x ∷ y ∷ es) (h, (k, hs)) (n, u) =
      ground (arith, h, k, n, eq_iff e.1 x.0, eq_iff e.1 y.0, eq_iff y.0 x.0)

  abbrev pub IsWithin : ℕ → CacheState D → Type 0
  IsWithin max_bytes st = (ltb max_bytes st.total_bytes && ltb 1 (length st.entries)) ≡ false

  last_tick :
      (e : ℕ × String) (order : List (ℕ × String)) (now : ℕ) (es : Entries D)
      → (e.0 == now) ≡ true
      → Ascends e.0 order now
      → Listed (e ∷ order) es
      → Unique es
      → ltb 1 (length es) ≡ false
  last_tick e [] now es d a h u = only_one e es h u
  last_tick e (o ∷ order) now es d (a, b, c) h u = absurd (ground (arith, d, a, b))

  evict-IsSound :
      (max_bytes now lo : ℕ) (order : List (ℕ × String)) (es : Entries D) (total : ℕ)
      → Ascends lo order now
      → Listed order es
      → Unique es
      → total ≡ total_of es
      → IsSound (evict max_bytes now order es total)
        × IsWithin max_bytes (evict max_bytes now order es total)
  unfolding evict
  evict-IsSound max_bytes now lo [] [] total a h u t = ((tt, tt, tt, t), ground arith)
  evict-IsSound max_bytes now lo [] (x ∷ es) total a h u t = absurd (ground (arith, h))
  evict-IsSound max_bytes now lo (e ∷ order) es total (a, b, c) h u t =
      elim (Bool-cases (ltb max_bytes total && ltb 1 (length es))) [
        | inr q ↦ rw q (((omega (arith, a), b, c), h, u, t), q)
        | inl q ↦ elim (Bool-cases (e.0 == now)) [
          | inl d ↦ absurd (ground (arith, q, last_tick e order now es d c h u))
          | inr d ↦
              let left : total - size_of (lookup e.1 es) ≡ total_of (remove e.1 es) =
                omega (arith, t, total-remove e.1 es u) in
              rw (q, d)
                (evict-IsSound max_bytes now e.0 order (remove e.1 es)
                  (total - size_of (lookup e.1 es)) c (remove-Listed e order es h)
                  (remove-Unique e.1 es u) left)
        ]
      ]

  abbrev listed_old : Option (BodyEntry D × ℕ) → List (BodyEntry D × ℕ)
  listed_old none = []
  listed_old (some old) = old ∷ []

  without_old-Ascends :
      (hi : ℕ) (old : Option (BodyEntry D × ℕ)) (order : List (ℕ × String))
      → Ascends 0 order hi
      → Ascends 0 (without_old old order) hi
  without_old-Ascends hi none order a = a
  without_old-Ascends hi (some old) order a = drop_tick-Ascends old.1 0 hi order a

  -- The ticks of the other mails stay.
  has-renewed :
      (hi : ℕ) (eid x : String) (t : ℕ) (old : Option (BodyEntry D × ℕ)) (order : List (ℕ × String))
      (old_has : All (λ o. has order o.1 eid ≡ true) (listed_old old))
      → Ascends 0 order hi
      → (eid =s x) ≡ false
      → has order t x ≡ true
      → has (without_old old order) t x ≡ true
  has-renewed hi eid x t none order k a d h = h
  has-renewed hi eid x t (some old) order (k, ks) a d h = elim (Bool-cases (t == old.1)) [
    | inl e ↦
        let also : has order old.1 x ≡ true = rw (sym ((==_iff t old.1).0 e)) h in
        absurd (ground (arith, d, has_unique 0 hi old.1 eid x order a k also))
    | inr e ↦ has-drop_tick old.1 t x order e h
  ]

  ticks_of_old :
      (eid : String) (order : List (ℕ × String)) (es : Entries D)
      → Listed order es
      → All (λ o. has order o.1 eid ≡ true) (listed_old (lookup eid es))
  unfolding lookup
  ticks_of_old eid order [] h = tt
  ticks_of_old eid order (e ∷ es) (h, hs) = elim (Bool-cases (e.0 =s eid)) [
    | inl d ↦ rw d (rw (sym ((eq_iff e.0 eid).0 d)) h, tt)
    | inr d ↦ rw d (ticks_of_old eid order es hs)
  ]

  module _ (eid : String) (order renewed_order : List (ℕ × String))
      (others : (x : String) (t : ℕ)
        → (eid =s x) ≡ false
        → has order t x ≡ true
        → has renewed_order t x ≡ true) where
    absent-Listed :
        (es : Entries D) → lookup eid es ≡ none → Listed order es → Listed renewed_order es
    unfolding lookup
    absent-Listed [] n h = tt
    absent-Listed (e ∷ es) n (h, hs) = elim (Bool-cases (e.0 =s eid)) [
      | inl d ↦ absurd (ground (arith, n, d))
      | inr d ↦ (
        others e.0 e.1.1 (ground (arith, d, eq_iff e.0 eid, eq_iff eid e.0)) h,
        absent-Listed es (ground (arith, n, d)) hs,
      )
    ]

    insert-Listed :
        (x : BodyEntry D × ℕ) (es : Entries D)
        → Listed order es
        → Unique es
        → has renewed_order x.1 eid ≡ true
        → Listed renewed_order (insert eid x es)
    unfolding insert
    insert-Listed x [] h u k = (k, tt)
    insert-Listed x (e ∷ es) (h, hs) (n, u) k = elim (Bool-cases (e.0 =s eid)) [
      | inl d ↦ rw d (k, absent-Listed es (rw (sym ((eq_iff e.0 eid).0 d)) n) hs)
      | inr d ↦ rw d (
        others e.0 e.1.1 (ground (arith, d, eq_iff e.0 eid, eq_iff eid e.0)) h,
        insert-Listed x es hs u k,
      )
    ]

  -- The map of ticks and the entries, with the mail's tick renewed.
  renewed_sound :
      (eid : String) (entry : BodyEntry D) (st : CacheState D) (now : ℕ)
      (old : Option (BodyEntry D × ℕ))
      → lookup eid st.entries ≡ old
      → IsSound st
      → st.tick < now
      → Ascends 0 (put_tick now eid (without_old old st.order)) now
        × Listed (put_tick now eid (without_old old st.order)) (insert eid (entry, now) st.entries)
        × Unique (insert eid (entry, now) st.entries)
  renewed_sound eid entry st now old e (a, h, u, t) fresh =
      let kept = without_old old st.order in
      let kept_ascends = without_old-Ascends st.tick old st.order a in
      let listed : All (λ o. has st.order o.1 eid ≡ true) (listed_old old) =
        rw (sym e) (ticks_of_old eid st.order st.entries h) in
      (
        put_tick-Ascends now 0 st.tick eid kept (omega (arith, fresh)) fresh kept_ascends,
        insert-Listed eid st.order (put_tick now eid kept)
            (λ x s d k.
              has-put_tick now 0 st.tick s eid x kept fresh kept_ascends
                (has-renewed st.tick eid x s old st.order listed a d k))
            (entry, now) st.entries h u (has-put_tick-new now eid kept),
        insert-Unique eid (entry, now) st.entries u,
      )

  -- An insertion keeps the cache sound: ticks ascend, every entry has its tick, no mail has two
  -- entries, and the count of bytes is their sum. Behind it the cache is within its budget or has one
  -- entry only.
  pub insert_entry-IsSound :
      (max_bytes : ℕ) (eid : String) (entry : BodyEntry D) (st : CacheState D) (sound : IsSound st)
      (room : suc st.tick < 2 ^ 64)
      → IsSound (insert_entry max_bytes eid entry st)
        × IsWithin max_bytes (insert_entry max_bytes eid entry st)
  unfolding insert_entry
  insert_entry-IsSound max_bytes eid entry st sound room =
      let now = suc st.tick % 2 ^ 64 in
      let old = lookup eid st.entries in
      let parts = renewed_sound eid entry st now old refl sound (omega (arith, room)) in
      evict-IsSound max_bytes now 0 (put_tick now eid (without_old old st.order))
        (insert eid (entry, now) st.entries) ((st.total_bytes - size_of old) + len entry.rfc2822)
        parts.0 parts.1 parts.2
        (omega (arith, sound.3, total-insert eid (entry, now) st.entries, size-le eid st.entries))

  same_total :
      (eid : String) (e : BodyEntry D × ℕ) (now : ℕ) (es : Entries D)
      → lookup eid es ≡ some e
      → total_of (insert eid (e.0, now) es) ≡ total_of es
  same_total eid e now es h =
      let size : size_of (lookup eid es) ≡ len e.0.rfc2822 = rw h refl in
      omega (arith, total-insert eid (e.0, now) es, size)

  later_tick :
      (st : CacheState D) (now : ℕ)
      → IsSound st
      → st.tick ≤ now
      → IsSound (record st { tick = now })
  later_tick st now (a, h, u, t) later = (Ascends-higher 0 st.tick now st.order later a, h, u, t)

  -- A look into the cache keeps it sound.
  pub cached-IsSound :
      (eid : String) (st : CacheState D) (sound : IsSound st) (room : suc st.tick < 2 ^ 64)
      → IsSound (cached eid st).1
  unfolding cached
  cached-IsSound eid st sound room =
      let now = suc st.tick % 2 ^ 64 in
      elim (Option-cases (lookup eid st.entries)) [
        | inl n ↦ rw (cached, n) (later_tick st now sound (omega (arith, room)))
        | inr (e, h) ↦
            let parts = renewed_sound eid e.0 st now (some e) h sound (omega (arith, room)) in
            rw (cached, h)
              (parts.0, parts.1, parts.2, sound.3 ∙ sym (same_total eid e now st.entries h))
      ]
