-- ===== src/Governor/Safety.antt =====
-- What the governor guarantees in every interleaving of requests.
use tutabridge.Prelude.{
  ℕ, ◌+◌, ◌-◌, ◌≤◌, ◌<◌, ◌≡◌, refl, String, Option, none, some, true, false, arith,
}
use tutabridge.Governor.Backoff.{
  Response, max_in_flight, max_server_backoff, backoff_for, throttle_delay,
}
use tutabridge.Governor.Gate.{
  Gate, init, on_response, on_throttle, is_open, Step, Reach, acquire, launch, respond, tick, here,
  next,
}
use tutabridge.Governor.Delays.{backoff_bounds}

-- When the suspension ends; 0 without one.
abbrev pub deadline : Gate → ℕ
deadline g = elim g.suspended_until [ none ↦ 0 | some t ↦ t ]

pub record IsGoverned (g : Gate) : Type 0 where
  pub bounded : g.permits + g.holding + g.in_flight ≡ max_in_flight
  pub no_stall : deadline g ≤ g.now + max_server_backoff

-- What a response may change: the suspension, never shortened, and the counter.
pub record Touches (g h : Gate) : Type 0 where
  pub same_now : h.now ≡ g.now
  pub same_permits : h.permits ≡ g.permits
  pub same_holding : h.holding ≡ g.holding
  pub same_flight : h.in_flight ≡ g.in_flight
  pub grows : deadline g ≤ deadline h
  pub capped : deadline g ≤ g.now + max_server_backoff → deadline h ≤ g.now + max_server_backoff

on_throttle-Touches :
    (d : Option (Option ℕ)) (status : ℕ) (g : Gate) → Touches g (on_throttle d status g)
unfolding on_throttle
on_throttle-Touches none status g = ground arith
on_throttle-Touches (some secs) status g =
    ground (arith, backoff_bounds g.consecutive_throttles secs)

on_response-Touches :
    (parse : String → Option ℕ) (r : Option Response) (g : Gate) → Touches g (on_response parse r g)
unfolding on_response
on_response-Touches parse none g = ground arith
on_response-Touches parse (some r) g = on_throttle-Touches (throttle_delay parse r) r.status g

shut_before : (g : Gate) → g.now < deadline g → is_open g ≡ false
unfolding is_open
shut_before g h = ground arith

throttle-deadline :
    (parse : String → Option ℕ) (g : Gate) (r : Response) (secs : Option ℕ)
    → throttle_delay parse r ≡ some secs
    → g.now + backoff_for g.consecutive_throttles secs ≤ deadline (on_response parse (some r) g)
unfolding on_response on_throttle
throttle-deadline parse g r secs e = rw e (ground arith)

open_behind : (g : Gate) → deadline g ≤ g.now → is_open g ≡ true
unfolding is_open
open_behind g h = ground arith

module _ {parse : String → Option ℕ} where
  Step-IsGoverned : {g h : Gate} → Step parse g h → IsGoverned g → IsGoverned h
  Step-IsGoverned (acquire p) v = ground arith
  Step-IsGoverned (launch p o) v = ground arith
  Step-IsGoverned {g} (respond r p) v = ground (
    arith,
    on_response-Touches parse r (record g { in_flight = g.in_flight - 1; permits = g.permits + 1 }),
  )
  Step-IsGoverned (tick ms) v = ground arith

  Reach-IsGoverned : {g h : Gate} → Reach parse g h → IsGoverned g → IsGoverned h
  Reach-IsGoverned here v = v
  Reach-IsGoverned (next r s) v = Step-IsGoverned s (Reach-IsGoverned r v)

  -- From the start on, at most four requests are ever in flight, every permit is accounted for, and
  -- no suspension ends more than five minutes ahead.
  pub Reach-init-IsGoverned : (t : ℕ) {g : Gate} → Reach parse (init t) g → IsGoverned g
  unfolding init
  Reach-init-IsGoverned t r = Reach-IsGoverned r (record { bounded = refl; no_stall = omega arith })

  -- Whatever the requests and responses were that led from the start to a gate, it is open five minutes
  -- later if no further response comes.
  pub opens_in_time :
      (t : ℕ) {g : Gate}
      → Reach parse (init t) g
      → is_open (record g { now = g.now + max_server_backoff }) ≡ true
  opens_in_time t {g} r =
      open_behind (record g { now = g.now + max_server_backoff })
        (Reach-init-IsGoverned t r).no_stall

  Step-deadline : {g h : Gate} → Step parse g h → (deadline g ≤ deadline h) × (g.now ≤ h.now)
  Step-deadline (acquire p) = omega arith
  Step-deadline (launch p o) = omega arith
  Step-deadline {g} (respond r p) =
      let t =
        on_response-Touches parse r
          (record g { in_flight = g.in_flight - 1; permits = g.permits + 1 }) in
      omega arith
  Step-deadline (tick ms) = omega arith

  pub Reach-deadline : {g h : Gate} → Reach parse g h → (deadline g ≤ deadline h) × (g.now ≤ h.now)
  Reach-deadline here = omega arith
  Reach-deadline (next r s) = omega (arith, Reach-deadline r, Step-deadline s)

  sends_only_when_open :
      {g h : Gate} → Step parse g h → g.now < deadline g → h.in_flight ≤ g.in_flight
  sends_only_when_open (acquire p) shut = omega arith
  sends_only_when_open {g} (launch p o) shut = absurd (ground (arith, shut_before g shut))
  sends_only_when_open {g} (respond r p) shut =
      let t =
        on_response-Touches parse r
          (record g { in_flight = g.in_flight - 1; permits = g.permits + 1 }) in
      omega arith
  sends_only_when_open (tick ms) shut = omega arith

  -- Behind a throttle response nothing is sent until the wait that it asked for is over, whatever
  -- the other requests do in between: a step from any later state before then sends no request.
  pub throttle_shuts :
      (g : Gate) (r : Response) (secs : Option ℕ) {h k : Gate}
      → throttle_delay parse r ≡ some secs
      → Reach parse (on_response parse (some r) g) h
      → h.now < g.now + backoff_for g.consecutive_throttles secs
      → Step parse h k
      → k.in_flight ≤ h.in_flight
  throttle_shuts g r secs e reach early s =
      sends_only_when_open s
        (omega (arith, Reach-deadline reach, throttle-deadline parse g r secs e))
