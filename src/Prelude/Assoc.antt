-- ===== src/Prelude/Assoc.antt =====
-- A `HashMap` with texts for keys, as an association list. A key that is written again keeps its
-- place, which nothing in the program depends on.
use mathlib.Core.Path.{◌≡◌, refl}
use mathlib.Core.List.{List, [], ◌∷◌}
use mathlib.Core.Option.{Option, none, some}
use native.Mathlib.Omega.{arith}
use Prim.Native.String.{String}
use text.Mathlib.Text.{◌==◌ as ◌=s◌}
use text.Mathlib.TextEquality.{eq_iff}
use tutabridge.Prelude.Tests.{if◌then◌else◌}

module _ {ℓ} {A : Type ℓ} where
  -- Every entry of the key goes.
  unfoldable pub remove : String → List (String × A) → List (String × A)
  remove name [] = []
  remove name (entry ∷ table) =
      if entry.0 =s name then remove name table else entry ∷ remove name table

  unfoldable pub lookup : String → List (String × A) → Option A
  lookup name [] = none
  lookup name (entry ∷ table) = if entry.0 =s name then some entry.1 else lookup name table

  pub lookup-remove :
      (gone name : String) (table : List (String × A))
      → lookup name (remove gone table) ≡ (if gone =s name then none else lookup name table)
  unfolding lookup remove
  lookup-remove gone name [] = ground arith
  lookup-remove gone name (entry ∷ table) = ground (
    arith,
    lookup-remove gone name table,
    eq_iff entry.0 gone,
    eq_iff entry.0 name,
    eq_iff gone name,
  )

  unfoldable pub insert : String → A → List (String × A) → List (String × A)
  insert name a [] = (name, a) ∷ []
  insert name a (entry ∷ table) =
      if entry.0 =s name then (name, a) ∷ table else entry ∷ insert name a table

  pub lookup-insert :
      (put name : String) (a : A) (table : List (String × A))
      → lookup name (insert put a table) ≡ (if put =s name then some a else lookup name table)
  unfolding lookup insert
  lookup-insert put name a [] = refl
  lookup-insert put name a (entry ∷ table) = ground (
    arith,
    lookup-insert put name a table,
    eq_iff entry.0 put,
    eq_iff entry.0 name,
    eq_iff put name,
  )
