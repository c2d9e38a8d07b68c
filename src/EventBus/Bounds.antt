-- ===== src/EventBus/Bounds.antt =====
-- What the reconnect rules of crates/tuta/src/event_bus.rs guarantee.
use tutabridge.Prelude.{ℕ, ◌+◌, ◌≤◌, ◌<◌, ◌≡◌, ◌⊎◌, ◌↔◌, none, some, arith}
use tutabridge.EventBus.Policy.{
  terminate, suspend, reconnect, close_action, reconnect_interval, pick_random,
}

-- The codes for which the client gives up.
abbrev pub IsAuthFailure : ℕ → Type 0
IsAuthFailure c = (c ≡ 401) ⊎ (c ≡ 470) ⊎ (c ≡ 472) ⊎ (c ≡ 429)

-- A code below 4000 and the same code wrapped as 4000 + code lead to the same action, and the
-- client gives up exactly for the four authentication codes, with the unwrapped code.
close_action_wrapped :
    (c : ℕ)
    → c < 4000
    → (close_action (4000 + c) ≡ close_action c)
      × ((k : ℕ) → (close_action c ≡ terminate k) ↔ (IsAuthFailure c × (k ≡ c)))
unfolding close_action
close_action_wrapped c h = (ground arith, λ k. ground arith)

-- An interval that the client may pick a delay from.
abbrev pub IsInterval : ℕ × ℕ → Type 0
IsInterval r = (5 ≤ r.0) × (r.0 < r.1) × (r.1 ≤ 120)

pub attempts-IsInterval : (failed : ℕ) → IsInterval (reconnect_interval failed none)
unfolding reconnect_interval
attempts-IsInterval failed = ground arith

pub suspend-IsInterval : (failed : ℕ) → IsInterval (reconnect_interval failed (some suspend))
unfolding reconnect_interval
suspend-IsInterval failed = ground arith

pub close-IsInterval :
    (failed code : ℕ) (r : ℕ × ℕ)
    → close_action code ≡ reconnect r
    → IsInterval (reconnect_interval failed (some (reconnect r)))
unfolding reconnect_interval close_action
close-IsInterval failed code r h = ground arith

-- The delay lies in the interval, if that is none the wrong way round, whatever the clock shows.
pick_random_bounds :
    (lo hi nanos : ℕ) → lo ≤ hi → (lo ≤ pick_random lo hi nanos) × (pick_random lo hi nanos ≤ hi)
unfolding pick_random
pick_random_bounds lo hi nanos h = ground arith
