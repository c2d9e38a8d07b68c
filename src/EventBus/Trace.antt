-- ===== src/EventBus/Trace.antt =====
-- Histories of the loop of `EventBusClient::run` (crates/tuta/src/event_bus.rs).
use tutabridge.Prelude.{
  ℕ, ◌≤◌, ◌≡◌, refl, sym, ap, ◌∙◌, ◌⊎◌, none, some, List, [], ◌∷◌, ◌++◌, append-nil, append_assoc,
  arith, All,
}
use tutabridge.EventBus.Policy.{
  CloseAction, terminate, suspend, reconnect, close_action, reconnect_interval, reconnect_small,
  saturating_add_u32,
}
use tutabridge.EventBus.Run.{
  WsState, Phase, Client, Input, on_close, act_on_close, deliver, step_dialing, step_reading,
  step_waiting, dispatch, step, run, stopped, connecting, connected, reconnecting,
  authentication_rejected, client_stopped, dialing, reading, waiting, ended, shutdown, dial_ok,
  dial_failed, text_frame, quiet_frame, close_frame, lost, receiver_gone, slept,
}
use tutabridge.EventBus.Bounds.{
  IsAuthFailure, IsInterval, attempts-IsInterval, suspend-IsInterval, close-IsInterval,
}

-- What the published state and the failure count say of each phase.
abbrev Fits : Phase → WsState → ℕ → Type 0
Fits dialing s n = s ≡ connecting
Fits reading s n = (s ≡ connected) × (n ≡ 0)
Fits (waiting r) s n = (s ≡ reconnecting) × (1 ≤ n) × IsInterval r
Fits (ended (authentication_rejected c)) s n = (s ≡ stopped) × IsAuthFailure c
Fits (ended client_stopped) s n = s ≡ stopped

close_expired : (code : ℕ) → (code ≡ 440) ⊎ (code ≡ 4440) → close_action code ≡ suspend
unfolding close_action
close_expired code h = ground arith

module _ {M : Type 0} where
  abbrev pub IsConsistent : Client M → Type 0
  IsConsistent c = Fits c.phase c.state c.failed_attempts

  act_on_close-IsConsistent :
      (c : Client M) (code : ℕ) (a : CloseAction)
      → close_action code ≡ a
      → IsConsistent (act_on_close a c)
  unfolding act_on_close saturating_add_u32
  act_on_close-IsConsistent c code (terminate k) h = unfold close_action in ground arith
  act_on_close-IsConsistent c code suspend h = (refl, ground arith, suspend-IsInterval _)
  act_on_close-IsConsistent c code (reconnect r) h =
      (refl, ground arith, close-IsInterval _ code r h)

  step_dialing-IsConsistent :
      (c : Client M) (i : Input M)
      → c.phase ≡ dialing
      → IsConsistent c
      → IsConsistent (step_dialing i c)
  unfolding step_dialing saturating_add_u32
  step_dialing-IsConsistent c shutdown e h = refl
  step_dialing-IsConsistent c dial_ok e h = (refl, refl)
  step_dialing-IsConsistent c dial_failed e h = (refl, ground arith, attempts-IsInterval _)
  step_dialing-IsConsistent c _ e h = h

  step_reading-IsConsistent :
      (c : Client M) (i : Input M)
      → c.phase ≡ reading
      → IsConsistent c
      → IsConsistent (step_reading i c)
  unfolding step_reading saturating_add_u32
  step_reading-IsConsistent c shutdown e h = refl
  step_reading-IsConsistent c receiver_gone e h = refl
  step_reading-IsConsistent c lost e h = (refl, ground arith, attempts-IsInterval _)
  step_reading-IsConsistent c (text_frame none) e h = h
  step_reading-IsConsistent c (text_frame (some m)) e h = h
  step_reading-IsConsistent c (close_frame code) e h =
      act_on_close-IsConsistent c code (close_action code) refl
  step_reading-IsConsistent c _ e h = h

  step_waiting-IsConsistent :
      (c : Client M) (i : Input M) → IsConsistent c → IsConsistent (step_waiting i c)
  unfolding step_waiting
  step_waiting-IsConsistent c shutdown h = refl
  step_waiting-IsConsistent c slept h = refl
  step_waiting-IsConsistent c _ h = h

  dispatch-IsConsistent :
      (p : Phase) (c : Client M) (i : Input M)
      → c.phase ≡ p
      → IsConsistent c
      → IsConsistent (dispatch p i c)
  unfolding dispatch
  dispatch-IsConsistent dialing c i e h = step_dialing-IsConsistent c i e h
  dispatch-IsConsistent reading c i e h = step_reading-IsConsistent c i e h
  dispatch-IsConsistent (waiting r) c i e h = step_waiting-IsConsistent c i h
  dispatch-IsConsistent (ended x) c i e h = h

  step-IsConsistent : (c : Client M) (i : Input M) → IsConsistent c → IsConsistent (step c i)
  unfolding step
  step-IsConsistent c i h = dispatch-IsConsistent c.phase c i refl h

  -- After any history of a consistent client the published state is that of the phase, a wait was preceded by a failure
  -- and lasts between 5 and 120 seconds, a connected client counts no failures, and a client that
  -- gave up for good had been closed with one of the four authentication codes.
  pub run-IsConsistent :
      (c : Client M) (is : List (Input M)) → IsConsistent c → IsConsistent (run c is)
  unfolding run
  run-IsConsistent c [] h = h
  run-IsConsistent c (i ∷ is) h = run-IsConsistent (step c i) is (step-IsConsistent c i h)

  -- A frame that leaves the connection open.
  abbrev IsOpenFrame : Input M → Type 0
  IsOpenFrame (text_frame m) = Unit {0}
  IsOpenFrame quiet_frame = Unit {0}
  IsOpenFrame _ = ⊥

  -- The messages that a list of frames holds.
  pub payloads : List (Input M) → List M
  payloads [] = []
  payloads (text_frame (some m) ∷ is) = m ∷ payloads is
  payloads (_ ∷ is) = payloads is

  step_at_reading : (c : Client M) (i : Input M) → c.phase ≡ reading → step c i ≡ step_reading i c
  unfolding step dispatch
  step_at_reading c i e = ap (λ p. dispatch p i c) e

  -- While the connection stays open every message that parses is delivered, in the order of the
  -- frames, and nothing else is.
  pub run-delivered :
      (c : Client M) (is : List (Input M))
      → c.phase ≡ reading
      → All IsOpenFrame is
      → ((run c is).phase ≡ reading) × ((run c is).delivered ≡ c.delivered ++ payloads is)
  unfolding run payloads step_reading
  run-delivered c [] e h = (e, sym (append-nil _))
  run-delivered c (text_frame (some m) ∷ is) e h =
      rw (run, step_at_reading c (text_frame (some m)) e)
        (let (p, q) = run-delivered (deliver (some m) c) is e h.1 in
          (p, q ∙ append_assoc c.delivered (m ∷ []) (payloads is)))
  run-delivered c (text_frame none ∷ is) e h =
      rw (run, step_at_reading c (text_frame none) e) (run-delivered c is e h.1)
  run-delivered c (quiet_frame ∷ is) e h =
      rw (run, step_at_reading c quiet_frame e) (run-delivered c is e h.1)
  run-delivered c (shutdown ∷ is) e h = elim h.0 [ ]
  run-delivered c (dial_ok ∷ is) e h = elim h.0 [ ]
  run-delivered c (dial_failed ∷ is) e h = elim h.0 [ ]
  run-delivered c (lost ∷ is) e h = elim h.0 [ ]
  run-delivered c (receiver_gone ∷ is) e h = elim h.0 [ ]
  run-delivered c (slept ∷ is) e h = elim h.0 [ ]
  run-delivered c (close_frame code ∷ is) e h = elim h.0 [ ]

  -- A consistent client whose session expired (close code 440, or 4440) does what one does whose
  -- connection was merely lost: it waits 5 to 10 seconds and dials again, with the same
  -- credentials. Nothing suspends it.
  pub expired_session_redials :
      (c : Client M) (code : ℕ)
      → IsConsistent c
      → c.phase ≡ reading
      → (code ≡ 440) ⊎ (code ≡ 4440)
      → let d = step c (close_frame code) in
        (d ≡ step c lost) × (d.phase ≡ waiting reconnect_small) × ((step d slept).phase ≡ dialing)
  unfolding step_reading step_waiting on_close reconnect_interval step dispatch saturating_add_u32
  expired_session_redials c code h e which =
      let n : (c.failed_attempts ≡ 0) = (rw e at h).1 in
      rw
        (
          step_at_reading c (close_frame code) e,
          step_at_reading c lost e,
          close_expired code which,
          n,
        )
        (refl, refl, refl)
