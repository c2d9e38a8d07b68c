-- ===== src/Governor/Tests.antt =====
-- A request that is throttled for seven seconds.
use tutabridge.Prelude.{ℕ, ◌+◌, ◌≤◌, ◌≡◌, refl, String, true, Option, none, some, [], ◌∷◌, arith}
use tutabridge.Prelude.Assoc.{lookup}
use tutabridge.Governor.Backoff.{
  Response, max_server_backoff, backoff_for, throttles_after, throttle_delay,
}
use tutabridge.Governor.Gate.{
  Gate, init, suspend_for, on_throttle, on_response, is_open, Reach, acquire, launch, respond, tick,
  here, next,
}
use tutabridge.Governor.Safety.{IsGoverned, Reach-init-IsGoverned, opens_in_time, throttle_shuts}

abbrev seven : String → Option ℕ
seven s = some 7

abbrev sent : Gate
sent = record {
  now = 50;
  permits = 3;
  holding = 0;
  in_flight = 1;
  suspended_until = none;
  consecutive_throttles = 0;
}

sent-Reach : Reach seven (init 50) sent
unfolding init is_open
sent-Reach = next (next here (acquire (omega arith))) (launch (omega arith) refl)

Reach-init-IsGoverned_example : IsGoverned sent
Reach-init-IsGoverned_example = Reach-init-IsGoverned 50 sent-Reach

abbrev throttled : Response
throttled = record { status = 429; headers = ("retry-after", "7") ∷ [] }

abbrev shut : Gate
shut = record sent { suspended_until = some 7050 }

abbrev ticked : Gate
ticked = record shut { now = 1050 }

shut-Reach : Reach seven (on_response seven (some throttled) sent) shut
unfolding on_response on_throttle throttle_delay suspend_for backoff_for throttles_after lookup
shut-Reach = here

throttle_shuts_example : ticked.in_flight ≤ shut.in_flight
unfolding throttle_delay lookup backoff_for
throttle_shuts_example =
    throttle_shuts sent throttled (some 7) refl shut-Reach (omega arith) (tick 1000)

abbrev freed : Gate
freed = record sent { permits = 4; in_flight = 0 }

answered : Reach seven (init 50) (on_response seven (some throttled) freed)
answered = next sent-Reach (respond (some throttled) (omega arith))

opens_in_time_example :
    let g = on_response seven (some throttled) freed in
    is_open (record g { now = g.now + max_server_backoff }) ≡ true
opens_in_time_example = opens_in_time 50 answered
