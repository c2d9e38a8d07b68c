-- ===== src/Retry/Service.antt =====
-- src/service/policy.rs: the states of the supervised worker, which exit codes stand for them, and
-- how long the supervisor waits. Fingerprints are lists of bytes.
use tutabridge.Prelude.{
  ℕ, ◌*◌, Bool, true, false, not, ◌&&◌, ◌||◌, Option, none, some, List, [], ◌∷◌, ltb, leb, ◌==◌,
  if◌then◌else◌,
}

abbrev pub poll_delay : ℕ
poll_delay = 10000

abbrev log_interval : ℕ
log_interval = 300000

abbrev pub max_backoff : ℕ
max_backoff = 300000

pub data State : Type 0 where
  configuration session storage rejected version occupied starting network failed stopping
        initialization :
      State

-- The discriminants.
unfoldable pub code : State → ℕ
code configuration = 10
code session = 11
code storage = 12
code rejected = 13
code version = 14
code occupied = 15
code starting = 16
code network = 17
code failed = 18
code stopping = 19
code initialization = 20

-- A negative exit code takes the last branch, like any number above 20.
unfoldable pub from_code : ℕ → State
from_code c =
    if c == 10
    then configuration
    else if c == 11
    then session
    else if c == 12
    then storage
    else if c == 13
    then rejected
    else if c == 14
    then version
    else if c == 17
    then network
    else if c == 20
    then initialization
    else failed

-- `==` of the derived `PartialEq`.
unfoldable same_state : State → State → Bool
unfolding code
same_state a b = code a == code b

abbrev same_bytes : List ℕ → List ℕ → Bool
same_bytes [] [] = true
same_bytes (x ∷ xs) (y ∷ ys) = x == y && same_bytes xs ys
same_bytes _ _ = false

abbrev same_fingerprint : Option (List ℕ) → Option (List ℕ) → Bool
same_fingerprint none none = true
same_fingerprint (some a) (some b) = same_bytes a b
same_fingerprint _ _ = false

unfoldable awaits_repair : State → Option (List ℕ) → Option (List ℕ) → Bool
unfolding same_state
awaits_repair s previous current =
    same_state s version || same_state s rejected && same_fingerprint previous current

-- This wait, and the backoff of the next attempt.
unfoldable pub retry_delay : State → ℕ → ℕ × ℕ
unfolding same_state
retry_delay s backoff =
    if same_state s failed || same_state s network
    then (backoff, if ltb max_backoff (backoff * 2) then max_backoff else backoff * 2)
    else (poll_delay, poll_delay)

unfoldable should_log : State → State → ℕ → Bool
unfolding same_state
should_log s previous elapsed = not (same_state s previous) || leb log_interval elapsed
