-- ===== src/BodyCache/Tests.antt =====
-- A cache with room for four bytes.
use tutabridge.Prelude.{refl, arith, Bool, none, String, [], ◌∷◌}
use tutabridge.Prelude.Text.{codes, len}
use tutabridge.Prelude.Assoc.{lookup}
use tutabridge.BodyCache.Defs.{BodyEntry, CacheState, insert_entry}
use tutabridge.BodyCache.Budget.{IsSound, IsWithin, insert_entry-IsSound}

abbrev body : String → BodyEntry Bool
body text = record { details = none; rfc2822 = codes text }

abbrev two_bodies : CacheState Bool
two_bodies = record {
  entries = ("a", (body "ab", 1)) ∷ ("b", (body "cd", 2)) ∷ [];
  order = (1, "a") ∷ (2, "b") ∷ [];
  total_bytes = 4;
  tick = 2;
}

two_bodies-IsSound : IsSound two_bodies
unfolding lookup len
two_bodies-IsSound = (
  (omega arith, omega arith, (omega arith, omega arith, tt)),
  (refl, (refl, tt)),
  (refl, (refl, tt)),
  refl,
)

insert_entry-IsSound_example :
    IsSound (insert_entry 4 "c" (body "ef") two_bodies)
    × IsWithin 4 (insert_entry 4 "c" (body "ef") two_bodies)
insert_entry-IsSound_example =
    insert_entry-IsSound 4 "c" (body "ef") two_bodies two_bodies-IsSound (omega arith)
