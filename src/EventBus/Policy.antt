-- ===== src/EventBus/Policy.antt =====
-- `close_action`, `reconnect_interval` and `pick_random` of crates/tuta/src/event_bus.rs.
use tutabridge.Prelude.{ℕ, ◌+◌, ◌-◌, ◌%◌, ◌^◌, Option, none, some, ◌||◌, leb, ◌==◌, if◌then◌else◌}

abbrev pub reconnect_small : ℕ × ℕ
reconnect_small = (5, 10)

abbrev reconnect_medium : ℕ × ℕ
reconnect_medium = (20, 40)

abbrev reconnect_large : ℕ × ℕ
reconnect_large = (60, 120)

pub data CloseAction : Type 0 where
  terminate : ℕ → CloseAction
  suspend : CloseAction
  reconnect : ℕ × ℕ → CloseAction

-- The match on the unwrapped code.
code_action : ℕ → CloseAction
code_action code =
    if code == 401 || code == 470 || code == 472 || code == 429
    then terminate code
    else if code == 440
    then suspend
    else if code == 1
    then reconnect reconnect_large
    else reconnect reconnect_small

unfoldable pub close_action : ℕ → CloseAction
unfolding code_action
close_action server_code =
    code_action (if leb 4000 server_code then server_code - 4000 else server_code)

-- `failed_attempts` decides where no close frame did.
attempts_interval : ℕ → ℕ × ℕ
attempts_interval failed =
    if failed == 0 || failed == 1
    then reconnect_small
    else if failed == 2
    then reconnect_medium
    else reconnect_large

unfoldable pub reconnect_interval : ℕ → Option CloseAction → ℕ × ℕ
unfolding attempts_interval
reconnect_interval failed none = attempts_interval failed
reconnect_interval failed (some (reconnect r)) = r
reconnect_interval failed (some suspend) = attempts_interval failed
reconnect_interval failed (some (terminate c)) = attempts_interval failed

-- `nanos` is the sub-second part of the clock.
unfoldable pub pick_random : ℕ → ℕ → ℕ → ℕ
pick_random lo hi nanos = if leb hi lo then lo else lo + nanos % (hi - lo + 1)

unfoldable pub saturating_add_u32 : ℕ → ℕ → ℕ
saturating_add_u32 a b = if leb (2 ^ 32) (a + b) then 2 ^ 32 - 1 else a + b
