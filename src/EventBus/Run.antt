-- ===== src/EventBus/Run.antt =====
-- The loop of `EventBusClient::run` as a step function: each input is what the `select!` of the
-- current phase resolves to. `Client.delivered` is what was sent to the caller's channel.
use tutabridge.Prelude.{ℕ, Option, none, some, List, [], ◌∷◌, ◌++◌}
use tutabridge.EventBus.Policy.{
  CloseAction, terminate, suspend, reconnect, close_action, reconnect_interval, saturating_add_u32,
}

pub data WsState : Type 0 where
  stopped connecting connected reconnecting : WsState

pub data EventBusError : Type 0 where
  authentication_rejected : ℕ → EventBusError
  client_stopped : EventBusError

-- `waiting` holds the interval that `sleep_backoff` picks the delay from.
pub data Phase : Type 0 where
  dialing reading : Phase
  waiting : ℕ × ℕ → Phase
  ended : EventBusError → Phase

-- A message is whatever `parse_message` returns.
pub record Client (M : Type 0) : Type 0 where
  pub phase : Phase
  pub failed_attempts : ℕ
  pub state : WsState
  pub delivered : List M

-- `text_frame` holds what `parse_message` made of the text, `none` for a refusal; `quiet_frame` is
-- a ping, a pong, a heartbeat that was sent or a frame of another kind; `lost` is a failed
-- heartbeat, an idle timeout, a stream that ended or a frame error; `close_frame` has the code 0 if
-- the frame had none.
pub data Input (M : Type 0) : Type 0 where
  shutdown dial_ok dial_failed quiet_frame lost receiver_gone slept : Input M
  text_frame : Option M → Input M
  close_frame : ℕ → Input M

module _ {M : Type 0} where
  -- The first pass through the loop.
  unfoldable pub start : Client M
  start = record { phase = dialing; failed_attempts = 0; state = connecting; delivered = [] }

  -- `return Err(e)`; the guard announces `Stopped`.
  unfoldable finish : EventBusError → Client M → Client M
  finish e c = record c { phase = ended e; state = stopped }

  unfoldable back_off : Option CloseAction → Client M → Client M
  back_off hint c =
      let failed = saturating_add_u32 c.failed_attempts 1 in
      record c {
        phase = waiting (reconnect_interval failed hint);
        failed_attempts = failed;
        state = reconnecting;
      }

  -- Behind the inner loop.
  unfoldable drop_connection : Option CloseAction → Client M → Client M
  unfolding back_off
  drop_connection hint c = back_off hint c

  unfoldable pub act_on_close : CloseAction → Client M → Client M
  unfolding finish drop_connection
  act_on_close (terminate code) c = finish (authentication_rejected code) c
  act_on_close suspend c = drop_connection (some suspend) c
  act_on_close (reconnect r) c = drop_connection (some (reconnect r)) c

  unfoldable pub on_close : ℕ → Client M → Client M
  unfolding act_on_close
  on_close code c = act_on_close (close_action code) c

  unfoldable pub deliver : Option M → Client M → Client M
  deliver none c = c
  deliver (some m) c = record c { delivered = c.delivered ++ m ∷ [] }

  unfoldable pub step_dialing : Input M → Client M → Client M
  unfolding finish back_off
  step_dialing shutdown c = finish client_stopped c
  step_dialing dial_ok c = record c { phase = reading; failed_attempts = 0; state = connected }
  step_dialing dial_failed c = back_off none c
  step_dialing _ c = c

  unfoldable pub step_reading : Input M → Client M → Client M
  unfolding finish drop_connection on_close deliver
  step_reading shutdown c = finish client_stopped c
  step_reading receiver_gone c = finish client_stopped c
  step_reading lost c = drop_connection none c
  step_reading (text_frame m) c = deliver m c
  step_reading (close_frame code) c = on_close code c
  step_reading _ c = c

  unfoldable pub step_waiting : Input M → Client M → Client M
  unfolding finish
  step_waiting shutdown c = finish client_stopped c
  step_waiting slept c = record c { phase = dialing; state = connecting }
  step_waiting _ c = c

  unfoldable pub dispatch : Phase → Input M → Client M → Client M
  unfolding step_dialing step_reading step_waiting
  dispatch dialing i c = step_dialing i c
  dispatch reading i c = step_reading i c
  dispatch (waiting r) i c = step_waiting i c
  dispatch (ended e) i c = c

  unfoldable pub step : Client M → Input M → Client M
  unfolding dispatch
  step c i = dispatch c.phase i c

  unfoldable pub run : Client M → List (Input M) → Client M
  run c [] = c
  run c (i ∷ is) = run (step c i) is
