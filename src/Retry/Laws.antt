-- ===== src/Retry/Laws.antt =====
-- The retry rules' guarantees.
use tutabridge.Prelude.{
  ℕ, zero, suc, ◌-◌, ◌+◌, ◌≤◌, ◌<◌, ◌^◌, ◌≡◌, ◌≢◌, refl, sym, subst, ◌⊎◌, inl, inr, Bool, true,
  false, Option, none, some, String, List, [], ◌∷◌, arith, All, ltb, Bool-cases,
}
use native.Mathlib.Nat.{pow-suc}
use tutabridge.Retry.Service.{
  State, code, from_code, retry_delay, poll_delay, max_backoff, configuration, session, storage,
  rejected, version, occupied, starting, network, failed, stopping, initialization,
}
use tutabridge.Retry.Syncer.{
  AttachmentRetry, after_failure, failures_after, retry_wait, retry_factor, next_attachment_retry,
  earlier, min, gave, gave_up, attempts, retry, attachment_retry_min, attachment_retry_max,
}

-- The states that only the supervisor itself enters.
abbrev IsSupervisorState : State → Type 0
IsSupervisorState s = (s ≡ occupied) ⊎ (s ≡ starting) ⊎ (s ≡ stopping)

worker_code : (s : State) → (from_code (code s) ≡ s) ⊎ IsSupervisorState s
unfolding from_code code
worker_code configuration = inl refl
worker_code session = inl refl
worker_code storage = inl refl
worker_code rejected = inl refl
worker_code version = inl refl
worker_code occupied = inr (inl refl)
worker_code starting = inr (inr (inl refl))
worker_code network = inl refl
worker_code failed = inl refl
worker_code stopping = inr (inr (inr refl))
worker_code initialization = inl refl

-- Every state that a worker can exit with is read back from its code, and no code is read as a
-- state that only the supervisor enters.
from_code-code :
    (s : State)
    → ((from_code (code s) ≡ s) ⊎ IsSupervisorState s)
      × ((c : ℕ) → IsSupervisorState s → from_code c ≢ s)
unfolding from_code
from_code-code s = (worker_code s, λ c h. ground arith)

-- If the wait so far lies between the poll delay and five minutes, then so do the next wait and the
-- one that it leads to, in every state.
retry_delay_bounds :
    (s : State) (b : ℕ)
    → poll_delay ≤ b
    → b ≤ max_backoff
    → (poll_delay ≤ (retry_delay s b).0)
      × ((retry_delay s b).0 ≤ max_backoff)
      × (poll_delay ≤ (retry_delay s b).1)
      × ((retry_delay s b).1 ≤ max_backoff)
unfolding retry_delay code
retry_delay_bounds s b lo hi = ground arith

one-le-pow : (k : ℕ) → 1 ≤ 2 ^ k
one-le-pow zero = omega arith
one-le-pow (suc k) = rw pow-suc (omega (arith, one-le-pow k))

retry_wait_bounds :
    (n : ℕ) (retryable : Bool)
    → (attachment_retry_min ≤ retry_wait n retryable)
      × (retry_wait n retryable ≤ attachment_retry_max)
      × (retryable ≡ false → retry_wait n retryable ≡ attachment_retry_max)
unfolding retry_wait retry_factor
retry_wait_bounds n false = ground arith
retry_wait_bounds n true = ground (arith, one-le-pow (min (n - 1) 6))

-- After at least one failure, counted in 32 bits, a mail's next attempt lies between a minute and an hour ahead; a
-- failure that no retry can mend waits the whole hour, and the count of failures never goes down.
after_failure_bounds :
    (previous : AttachmentRetry) (retryable : Bool) (now : ℕ)
    → previous.failures < 2 ^ 32
    → let r = after_failure (some previous) retryable now in
      (now + attachment_retry_min ≤ r.next_attempt)
      × (r.next_attempt ≤ now + attachment_retry_max)
      × (retryable ≡ false → r.next_attempt ≡ now + attachment_retry_max)
      × (previous.failures ≤ r.failures)
      × (r.failures < 2 ^ 32)
unfolding after_failure
after_failure_bounds previous retryable now h =
    ground (arith, retry_wait_bounds (failures_after (some previous)) retryable)

-- `retry` makes the four attempts in turn, a second, two and four seconds apart, and returns the
-- first value that one gives; it gives up only when all four failed.
pub retry_cases :
    {T : Type 0} (f : ℕ → Option T)
    → ((v : T) → f 0 ≡ some v → retry f ≡ gave v 1 0)
      × ((v : T) → f 0 ≡ none → f 1 ≡ some v → retry f ≡ gave v 2 1000)
      × ((v : T) → f 0 ≡ none → f 1 ≡ none → f 2 ≡ some v → retry f ≡ gave v 3 3000)
      × ((v : T) → f 0 ≡ none → f 1 ≡ none → f 2 ≡ none → f 3 ≡ some v → retry f ≡ gave v 4 7000)
      × (f 0 ≡ none → f 1 ≡ none → f 2 ≡ none → f 3 ≡ none → retry f ≡ gave_up 4 7000)
unfolding retry
retry_cases f = (
  λ v a. rw (a, attempts),
  λ v a b. rw (a, b, attempts),
  λ v a b c. rw (a, b, c, attempts),
  λ v a b c d. rw (a, b, c, d, attempts),
  λ a b c d. rw (a, b, c, d, attempts),
)

-- Some entry is due at a time.
abbrev IsDue : ℕ → List (String × AttachmentRetry) → Type 0
IsDue t [] = ⊥
IsDue t (e ∷ es) = (e.1.next_attempt ≡ t) ⊎ IsDue t es

abbrev IsNextRetry : List (String × AttachmentRetry) → ℕ → Option ℕ → Type 0
IsNextRetry history now none = All (λ e. e.1.next_attempt ≤ now) history
IsNextRetry history now (some d) =
    (0 < d)
    × All (λ e. (e.1.next_attempt ≤ now) ⊎ (now + d ≤ e.1.next_attempt)) history
    × IsDue (now + d) history

Due-sooner :
    (history : List (String × AttachmentRetry)) (now d d' : ℕ)
    → d' ≤ d
    → All (λ e. (e.1.next_attempt ≤ now) ⊎ (now + d ≤ e.1.next_attempt)) history
    → All (λ e. (e.1.next_attempt ≤ now) ⊎ (now + d' ≤ e.1.next_attempt)) history
Due-sooner [] now d d' h a = tt
Due-sooner (e ∷ es) now d d' h a = (ground arith, Due-sooner es now d d' h a.1)

None-pending :
    (history : List (String × AttachmentRetry)) (now d : ℕ)
    → All (λ e. e.1.next_attempt ≤ now) history
    → All (λ e. (e.1.next_attempt ≤ now) ⊎ (now + d ≤ e.1.next_attempt)) history
None-pending [] now d a = tt
None-pending (e ∷ es) now d a = (inl a.0, None-pending es now d a.1)

sooner-IsNextRetry :
    (e : String × AttachmentRetry) (history : List (String × AttachmentRetry)) (now d : ℕ)
    → now < e.1.next_attempt
    → IsNextRetry history now (some d)
    → IsNextRetry (e ∷ history) now (some (min (e.1.next_attempt - now) d))
sooner-IsNextRetry e history now d t h = elim (Bool-cases (ltb d (e.1.next_attempt - now))) [
  | inl later ↦
      subst (λ m. IsNextRetry (e ∷ history) now (some m)) {x = d} (sym (rw later))
        (h.0, (ground arith, h.1), inr h.2)
  | inr first ↦
      subst (λ m. IsNextRetry (e ∷ history) now (some m)) {x = e.1.next_attempt - now}
        (sym (rw first))
        (
          omega arith,
          (omega arith, Due-sooner history now d _ (ground arith) h.1),
          inl (omega arith),
        )
]

earlier-IsNextRetry :
    (e : String × AttachmentRetry) (history : List (String × AttachmentRetry)) (now : ℕ)
    (rest : Option ℕ)
    → IsNextRetry history now rest
    → IsNextRetry (e ∷ history) now (earlier now e.1.next_attempt rest)
unfolding earlier
earlier-IsNextRetry e history now none h = elim (Bool-cases (ltb now e.1.next_attempt)) [
  | inl t ↦
      rw (t, earlier)
        (ground arith, (ground arith, None-pending history now _ h), inl (ground arith))
  | inr f ↦ rw (f, earlier) (ground arith, h)
]
earlier-IsNextRetry e history now (some d) h = elim (Bool-cases (ltb now e.1.next_attempt)) [
  | inl t ↦ rw (t, earlier) (sooner-IsNextRetry e history now d (ground arith) h)
  | inr f ↦ rw (f, earlier) (h.0, (ground arith, h.1), inr h.2)
]

-- The wait until the next retry: it is positive, no pending entry is due before its end, one is due
-- then, and there is no wait only when no entry is pending.
pub next_attachment_retry_lem :
    (history : List (String × AttachmentRetry)) (now : ℕ)
    → IsNextRetry history now (next_attachment_retry history now)
unfolding next_attachment_retry
next_attachment_retry_lem [] now = tt
next_attachment_retry_lem (e ∷ history) now =
    earlier-IsNextRetry e history now (next_attachment_retry history now)
      (next_attachment_retry_lem history now)
