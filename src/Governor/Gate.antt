-- ===== src/Governor/Gate.antt =====
-- The shared state of the governor, and its requests as interleaved steps. A step is atomic: the
-- read of the suspension and the send that follows it have no wait between them in the code, and
-- neither have the counter and the suspension behind a response.
use tutabridge.Prelude.{
  ℕ, ◌+◌, ◌-◌, ◌<◌, ◌≡◌, String, Option, none, some, Bool, true, ◌&&◌, ltb, leb, if◌then◌else◌,
}
use tutabridge.Governor.Backoff.{
  Response, max_in_flight, backoff_for, throttles_after, throttle_delay,
}

-- `holding` counts the requests that have a permit and wait out the suspension, `in_flight` those
-- that were sent.
pub record Gate : Type 0 where
  pub now : ℕ
  pub permits : ℕ
  pub holding : ℕ
  pub in_flight : ℕ
  pub suspended_until : Option ℕ
  pub consecutive_throttles : ℕ

unfoldable pub init : ℕ → Gate
init t = record {
  now = t;
  permits = max_in_flight;
  holding = 0;
  in_flight = 0;
  suspended_until = none;
  consecutive_throttles = 0;
}

later_deadline : Option ℕ → ℕ → ℕ
later_deadline none until = until
later_deadline (some existing) until = if leb until existing then existing else until

-- The longer of the two deadlines wins.
unfoldable pub suspend_for : ℕ → Gate → Gate
unfolding later_deadline
suspend_for backoff g = record g {
  suspended_until = some (later_deadline g.suspended_until (g.now + backoff));
}

unfoldable pub note_success : Gate → Gate
note_success g = record g { consecutive_throttles = 0 }

unfoldable pub on_throttle : Option (Option ℕ) → ℕ → Gate → Gate
unfolding suspend_for note_success
on_throttle (some secs) status g =
    suspend_for (backoff_for g.consecutive_throttles secs)
      (record g { consecutive_throttles = throttles_after g.consecutive_throttles secs })
on_throttle none status g = if leb 200 status && ltb status 300 then note_success g else g

-- What `request_binary` does with the outcome of a request; `none` is a transport error.
unfoldable pub on_response : (String → Option ℕ) → Option Response → Gate → Gate
unfolding on_throttle
on_response parse none g = g
on_response parse (some r) g = on_throttle (throttle_delay parse r) r.status g

-- The test of `wait_out_suspension`.
unfoldable pub is_open : Gate → Bool
is_open g = elim g.suspended_until [ none ↦ true | some t ↦ leb t g.now ]

pub data Step (parse : String → Option ℕ) (g : Gate) : Gate → Type 0 where
  acquire :
      0 < g.permits → Step parse g (record g { permits = g.permits - 1; holding = g.holding + 1 })
  launch :
      0 < g.holding
      → is_open g ≡ true
      → Step parse g (record g { holding = g.holding - 1; in_flight = g.in_flight + 1 })
  respond :
      (r : Option Response)
      → 0 < g.in_flight
      → Step parse g
          (on_response parse r (record g { in_flight = g.in_flight - 1; permits = g.permits + 1 }))
  tick : (ms : ℕ) → Step parse g (record g { now = g.now + ms })

pub data Reach (parse : String → Option ℕ) (g : Gate) : Gate → Type 0 where
  here : Reach parse g g
  next : {h k : Gate} → Reach parse g h → Step parse h k → Reach parse g k
