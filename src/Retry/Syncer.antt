-- ===== src/Retry/Syncer.antt =====
-- `AttachmentRetry`, `next_attachment_retry`, `retry` and `backoff` of crates/bridge/src/sync.rs.
use tutabridge.Prelude.{
  ℕ, zero, suc, ◌+◌, ◌-◌, ◌*◌, ◌^◌, Bool, Option, none, some, String, List, [], ◌∷◌, ltb, leb, ◌==◌,
  if◌then◌else◌,
}

abbrev pub attachment_retry_min : ℕ
attachment_retry_min = 60000

abbrev pub attachment_retry_max : ℕ
attachment_retry_max = 3600000

abbrev max_retries : ℕ
max_retries = 3

abbrev pub min : ℕ → ℕ → ℕ
min a b = if ltb b a then b else a

pub record AttachmentRetry : Type 0 where
  pub failures : ℕ
  pub next_attempt : ℕ

saturating_inc : ℕ → ℕ
saturating_inc n = if leb (2 ^ 32 - 1) n then 2 ^ 32 - 1 else n + 1

unfoldable pub failures_after : Option AttachmentRetry → ℕ
unfolding saturating_inc
failures_after none = 1
failures_after (some previous) = saturating_inc previous.failures

unfoldable pub retry_factor : ℕ → ℕ
retry_factor failures = 2 ^ min (failures - 1) 6

unfoldable pub retry_wait : ℕ → Bool → ℕ
unfolding retry_factor
retry_wait failures retryable =
    if retryable
    then min (attachment_retry_min * retry_factor failures) attachment_retry_max
    else attachment_retry_max

unfoldable pub after_failure : Option AttachmentRetry → Bool → ℕ → AttachmentRetry
unfolding failures_after retry_wait
after_failure previous retryable now = record {
  failures = failures_after previous;
  next_attempt = now + retry_wait (failures_after previous) retryable;
}

-- The smaller of a found delay and the delay of one more entry, if that one lies ahead.
unfoldable pub earlier : ℕ → ℕ → Option ℕ → Option ℕ
earlier now at none = if ltb now at then some (at - now) else none
earlier now at (some d) = if ltb now at then some (min (at - now) d) else some d

unfoldable pub next_attachment_retry : List (String × AttachmentRetry) → ℕ → Option ℕ
unfolding earlier
next_attachment_retry [] now = none
next_attachment_retry ((eid, r) ∷ history) now =
    earlier now r.next_attempt (next_attachment_retry history now)

unfoldable pub backoff : ℕ → ℕ
backoff current = min (if current == 0 then 1000 else current * 2) 120000

-- What `retry` returns, with the attempts that it made and the time that it slept.
pub data Outcome (T : Type 0) : Type 0 where
  gave : T → ℕ → ℕ → Outcome T
  gave_up : ℕ → ℕ → Outcome T

module _ {T : Type 0} where
  -- `f n` is the result of the attempt `n`, `none` for an error; `left` attempts may still follow.
  unfoldable pub attempts : (ℕ → Option T) → ℕ → ℕ → ℕ → ℕ → Outcome T
  unfolding backoff
  attempts f zero n delay slept = elim (f n) [
    | some v ↦ gave v (suc n) slept
    | none ↦ gave_up (suc n) slept
  ]
  attempts f (suc left) n delay slept =
      let again = attempts f left (suc n) (backoff delay) (slept + delay) in
      elim (f n) [ some v ↦ gave v (suc n) slept | none ↦ again ]

  unfoldable pub retry : (ℕ → Option T) → Outcome T
  unfolding attempts
  retry f = attempts f max_retries 0 1000 0
