-- ===== src/Governor/Delays.antt =====
-- How long a throttle suspends the traffic.
use tutabridge.Prelude.{
  ℕ, zero, suc, ◌%◌, refl, ◌+◌, ◌*◌, ◌≤◌, ◌<◌, ◌^◌, ◌≡◌, Option, none, some, arith,
}
use tutabridge.Governor.Backoff.{
  min, default_backoff_base, max_server_backoff, backoff_for, throttles_after, factor,
}

min_above : (n : ℕ) → 5 ≤ n → min n 5 ≡ 5
min_above n h = ground arith

factor_above : (n : ℕ) → 5 ≤ n → factor n ≡ 32
unfolding factor
factor_above n h = rw (min_above n h)

factor_bounds : (n : ℕ) → (1 ≤ factor n) × (factor n ≤ 32)
unfolding factor
factor_bounds zero = omega arith
factor_bounds (suc zero) = omega arith
factor_bounds (suc (suc zero)) = omega arith
factor_bounds (suc (suc (suc zero))) = omega arith
factor_bounds (suc (suc (suc (suc zero)))) = omega arith
factor_bounds (suc (suc (suc (suc (suc n))))) =
    rw (factor_above (suc (suc (suc (suc (suc n))))) (omega arith)) (omega arith)

-- Every wait lies between 2 and 300 seconds, whatever the server asks for, and a hint within these
-- bounds is honoured to the second.
pub backoff_bounds :
    (n : ℕ) (secs : Option ℕ)
    → (default_backoff_base ≤ backoff_for n secs)
      × (backoff_for n secs ≤ max_server_backoff)
      × ((s : ℕ) → secs ≡ some s → 2 ≤ s → s ≤ 300 → backoff_for n secs ≡ s * 1000)
unfolding backoff_for
backoff_bounds n none =
    (ground (arith, factor_bounds n), ground (arith, factor_bounds n), λ s e. cc)
backoff_bounds n (some s) = (ground arith, ground arith, λ t e lo hi. ground arith)

-- Without a hint the waits escalate, as long as the counter does not wrap: after each of the first five throttles the next wait is
-- doubled, but is a minute at most; from the sixth on it is a minute.
pub backoff_escalates :
    (n : ℕ)
    → n + 1 < 2 ^ 32
    → (n < 5 → backoff_for (throttles_after n none) none ≡ min (2 * backoff_for n none) 60000)
      × (5 ≤ n → (backoff_for n none ≡ 60000) × (backoff_for (throttles_after n none) none ≡ 60000))
unfolding backoff_for throttles_after
backoff_escalates zero h = (λ _. refl, λ five. absurd (omega arith))
backoff_escalates (suc zero) h = (λ _. refl, λ five. absurd (omega arith))
backoff_escalates (suc (suc zero)) h = (λ _. refl, λ five. absurd (omega arith))
backoff_escalates (suc (suc (suc zero))) h = (λ _. refl, λ five. absurd (omega arith))
backoff_escalates (suc (suc (suc (suc zero)))) h = (λ _. refl, λ five. absurd (omega arith))
backoff_escalates (suc (suc (suc (suc (suc n))))) h = (
  λ small. absurd (omega arith),
  λ _. (
    ground (arith, factor_above (suc (suc (suc (suc (suc n)))))),
    ground (arith, factor_above ((suc (suc (suc (suc (suc n)))) + 1) % 2 ^ 32)),
  ),
)
