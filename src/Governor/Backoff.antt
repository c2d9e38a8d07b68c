-- ===== src/Governor/Backoff.antt =====
-- `backoff_for` and `throttle_delay`. The counter of throttles is the atomic of the client; it is
-- read and written by two functions of it here.
use tutabridge.Prelude.{
  ℕ, ◌+◌, ◌*◌, ◌^◌, ◌%◌, String, Option, none, some, List, ◌||◌, ltb, ◌==◌, if◌then◌else◌,
}
use tutabridge.Prelude.Assoc.{lookup}

abbrev pub max_in_flight : ℕ
max_in_flight = 4

abbrev pub default_backoff_base : ℕ
default_backoff_base = 2000

abbrev pub max_default_backoff : ℕ
max_default_backoff = 60000

abbrev pub max_server_backoff : ℕ
max_server_backoff = 300000

abbrev pub min : ℕ → ℕ → ℕ
min a b = if ltb b a then b else a

abbrev clamp : ℕ → ℕ → ℕ → ℕ
clamp lo hi x = if ltb x lo then lo else if ltb hi x then hi else x

-- 1, 2, 4, 8, 16, 32
unfoldable pub factor : ℕ → ℕ
factor n = 2 ^ min n 5

-- The seconds that the server asked for, or how often it throttled before without a hint.
unfoldable pub backoff_for : ℕ → Option ℕ → ℕ
unfolding factor
backoff_for throttles (some secs) = clamp default_backoff_base max_server_backoff (secs * 1000)
backoff_for throttles none = min (default_backoff_base * factor throttles) max_default_backoff

-- The counter behind a call: a hint resets it, `fetch_add` wraps at 32 bits.
unfoldable pub throttles_after : ℕ → Option ℕ → ℕ
throttles_after throttles (some secs) = 0
throttles_after throttles none = (throttles + 1) % 2 ^ 32

pub record Response : Type 0 where
  pub status : ℕ
  pub headers : List (String × String)

abbrev or_else : {A : Type 0} → Option A → Option A → Option A
or_else none b = b
or_else (some a) b = some a

abbrev and_then : {A B : Type 0} → Option A → (A → Option B) → Option B
and_then none f = none
and_then (some a) f = f a

-- `none`: no throttle. `some secs`: a throttle, with the advertised delay if there is one. `parse`
-- is `v.trim().parse::<u64>().ok()`.
unfoldable pub throttle_delay : (String → Option ℕ) → Response → Option (Option ℕ)
throttle_delay parse r =
    if r.status == 429 || r.status == 503
    then some (
        and_then (or_else (lookup "retry-after" r.headers) (lookup "suspension-time" r.headers))
          parse)
    else none
