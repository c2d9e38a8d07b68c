-- ===== src/BodyCache/Entries.antt =====
-- The entries of the cache of bodies, as an association list (crates/bridge/src/body_cache.rs).
use tutabridge.Prelude.{
  ℕ, ◌+◌, ◌≤◌, arith, ◌≡◌, refl, sym, ◌∙◌, none, String, List, [], ◌∷◌, ◌=s◌, eq_iff, Bool-cases,
  inl, inr,
}
use tutabridge.Prelude.Text.{len}
use tutabridge.Prelude.Assoc.{lookup, insert, remove, lookup-remove, lookup-insert}
use tutabridge.BodyCache.Defs.{BodyEntry, size_of}

abbrev pub Entries : Type 0 → Type 0
Entries D = List (String × (BodyEntry D × ℕ))

module _ {D : Type 0} where
  abbrev pub total_of : Entries D → ℕ
  total_of [] = 0
  total_of (e ∷ es) = len e.1.0.rfc2822 + total_of es

  abbrev pub Unique : Entries D → Type 0
  Unique [] = Unit
  Unique (e ∷ es) = (lookup e.0 es ≡ none) × Unique es

  no_size :
      (eid : String) (es : Entries D)
      → lookup eid es ≡ none
      → total_of (remove eid es) + size_of (lookup eid es) ≡ total_of es
      → total_of (remove eid es) ≡ total_of es
  no_size eid es gone h =
      let zero_size : size_of (lookup eid es) ≡ 0 = rw gone refl in omega (arith, h, zero_size)

  pub total-remove :
      (eid : String) (es : Entries D)
      → Unique es
      → total_of (remove eid es) + size_of (lookup eid es) ≡ total_of es
  unfolding remove lookup
  total-remove eid [] u = refl
  total-remove eid (e ∷ es) (n, u) = elim (Bool-cases (e.0 =s eid)) [
    | inl d ↦
        let gone : lookup eid es ≡ none = rw (sym ((eq_iff e.0 eid).0 d)) n in
        let rest = no_size eid es gone (total-remove eid es u) in rw d (omega (arith, rest))
    | inr d ↦ rw d (omega (arith, total-remove eid es u))
  ]

  pub remove-Unique : (eid : String) (es : Entries D) → Unique es → Unique (remove eid es)
  unfolding remove
  remove-Unique eid [] u = tt
  remove-Unique eid (e ∷ es) (n, u) = elim (Bool-cases (e.0 =s eid)) [
    | inl d ↦ rw d (remove-Unique eid es u)
    | inr d ↦ rw d (lookup-remove eid e.0 es ∙ ground (arith, n), remove-Unique eid es u)
  ]

  pub total-insert :
      (eid : String) (x : BodyEntry D × ℕ) (es : Entries D)
      → total_of (insert eid x es) + size_of (lookup eid es) ≡ total_of es + len x.0.rfc2822
  unfolding insert lookup
  total-insert eid x [] = omega arith
  total-insert eid x (e ∷ es) = elim (Bool-cases (e.0 =s eid)) [
    | inl d ↦ rw d (omega arith)
    | inr d ↦ rw d (omega (arith, total-insert eid x es))
  ]

  pub size-le : (eid : String) (es : Entries D) → size_of (lookup eid es) ≤ total_of es
  unfolding lookup
  size-le eid [] = omega arith
  size-le eid (e ∷ es) = elim (Bool-cases (e.0 =s eid)) [
    | inl d ↦ rw d (omega arith)
    | inr d ↦ rw d (omega (arith, size-le eid es))
  ]

  pub insert-Unique :
      (eid : String) (x : BodyEntry D × ℕ) (es : Entries D) → Unique es → Unique (insert eid x es)
  unfolding insert lookup
  insert-Unique eid x [] u = (refl, tt)
  insert-Unique eid x (e ∷ es) (n, u) = elim (Bool-cases (e.0 =s eid)) [
    | inl d ↦ rw d (rw (sym ((eq_iff e.0 eid).0 d)) n, u)
    | inr d ↦ rw d (
      lookup-insert eid e.0 x es ∙ ground (arith, n, d, eq_iff e.0 eid, eq_iff eid e.0),
      insert-Unique eid x es u,
    )
  ]
