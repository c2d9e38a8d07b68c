-- ===== src/Cache/Uids.antt =====
-- The UIDs that `allocate_folder_uids` (crates/bridge/src/store.rs) hands out.
use tutabridge.Prelude.{
  ℕ, suc, ◌+◌, ◌≤◌, ◌<◌, ◌%◌, ◌^◌, ◌≡◌, ◌≢◌, refl, sym, ◌∙◌, String, Option, none, some, List, [],
  ◌∷◌, arith, ◌=s◌, eq_iff, if◌then◌else◌, length,
}
use tutabridge.Prelude.Assoc.{lookup, insert, lookup-insert}
use tutabridge.Cache.Tables.{LocalStore}
use tutabridge.Cache.Rows.{number_from, next_uid, allocate_folder_uids}

abbrev or_else : Option ℕ → Option ℕ → Option ℕ
or_else none b = b
or_else (some a) b = some a

-- The number of the last place of an id, the first place having the number `n`.
place_from : ℕ → String → List String → Option ℕ
place_from n eid [] = none
place_from n eid (e ∷ es) = or_else (place_from (suc n) eid es) (if e =s eid then some n else none)

lookup-number_from :
    (n : ℕ) (eids : List String) (m : List (String × ℕ)) (eid : String)
    → n + length eids ≤ 2 ^ 32
    → lookup eid (number_from n eids m) ≡ or_else (place_from n eid eids) (lookup eid m)
unfolding number_from place_from
lookup-number_from n [] m eid h = refl
lookup-number_from n (e ∷ es) m eid h = ground (
  arith,
  lookup-number_from (suc n) es (insert e (n % 2 ^ 32) m) eid,
  lookup-insert e eid (n % 2 ^ 32) m,
)

place_from_bounds :
    (n : ℕ) (eid : String) (eids : List String) (p : ℕ)
    → place_from n eid eids ≡ some p
    → (n ≤ p) × (p < n + length eids)
unfolding place_from
place_from_bounds n eid [] p h = ground arith
place_from_bounds n eid (e ∷ es) p h = ground (arith, place_from_bounds (suc n) eid es p)

place_from_injective :
    (n : ℕ) (a b : String) (eids : List String) (p : ℕ)
    → place_from n a eids ≡ some p
    → place_from n b eids ≡ some p
    → a ≡ b
unfolding place_from
place_from_injective n a b [] p h k = ground arith
place_from_injective n a b (e ∷ es) p h k = ground (
  arith,
  place_from_injective (suc n) a b es p,
  place_from_bounds (suc n) a es p,
  place_from_bounds (suc n) b es p,
  eq_iff e a,
  eq_iff e b,
)

module _ (folder : String) (eids : List String) (s : LocalStore) where
  pub next_uid-allocate :
      (other : String)
      → next_uid other (allocate_folder_uids folder eids s).1
        ≡ (if folder =s other then next_uid folder s + length eids else next_uid other s)
  unfolding allocate_folder_uids
  next_uid-allocate other =
      ground (arith, lookup-insert folder other (next_uid folder s + length eids) s.next_uids)

  lookup-allocate :
      (eid : String)
      → next_uid folder s + length eids ≤ 2 ^ 32
      → lookup eid (allocate_folder_uids folder eids s).0 ≡ place_from (next_uid folder s) eid eids
  unfolding allocate_folder_uids lookup
  lookup-allocate eid h = ground (arith, lookup-number_from (next_uid folder s) eids [] eid)

  -- As long as the counter fits 32 bits: every UID handed out lies between the old value of the
  -- folder's counter and the new one, two mails never get the same UID, and the counters of the
  -- other folders stay as they are. So no UID of a folder is handed out twice.
  pub allocate_lem :
      (a : String) (u : ℕ)
      → next_uid folder s + length eids ≤ 2 ^ 32
      → lookup a (allocate_folder_uids folder eids s).0 ≡ some u
      → (next_uid folder s ≤ u)
        × (u < next_uid folder (allocate_folder_uids folder eids s).1)
        × ((b : String) → lookup b (allocate_folder_uids folder eids s).0 ≡ some u → b ≡ a)
        × ((other : String)
            → other ≢ folder
            → next_uid other (allocate_folder_uids folder eids s).1 ≡ next_uid other s)
  allocate_lem a u fits h =
      let at : (place_from (next_uid folder s) a eids ≡ some u) =
        sym (lookup-allocate a fits) ∙ h in
      (
        (place_from_bounds (next_uid folder s) a eids u at).0,
        ground (
          arith,
          place_from_bounds (next_uid folder s) a eids u at,
          next_uid-allocate folder,
          eq_iff folder folder,
        ),
        λ b k.
            place_from_injective (next_uid folder s) b a eids u (sym (lookup-allocate b fits) ∙ k)
              at,
        λ other ne. ground (arith, next_uid-allocate other, eq_iff folder other),
      )

  -- A single id gets the folder's next UID.
  pub lookup-allocate_one :
      (eid : String)
      → eids ≡ eid ∷ []
      → next_uid folder s < 2 ^ 32
      → lookup eid (allocate_folder_uids folder eids s).0 ≡ some (next_uid folder s)
  unfolding place_from
  lookup-allocate_one eid e h =
      rw (lookup-allocate eid (rw e (omega arith)), e) (ground (arith, eq_iff eid eid))
