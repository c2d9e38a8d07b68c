-- ===== src/SessionStore/State.antt =====
-- `State` of crates/bridge/src/session_store/mod.rs and its operations, over a backend that keeps one
-- entry in a world outside. Writing to the log is left out.
use tutabridge.Prelude.{Bool, true, false, not, ◌&&◌, ◌||◌, Option, none, some, ◌++◌, if◌then◌else◌}
use tutabridge.Prelude.Text.{Text, codes}
use tutabridge.SessionStore.Errors.{
  Result, ok, err, map_err, SessionStoreError, write_error, delete_error, invalid_session,
  unreadable_store, volatile_session, persistence_required, to_string, warning,
  allows_volatile_login, allows_reauthentication,
}
use tutabridge.SessionStore.Codec.{Credentials, Formats, encode, decode}

-- What the store asks of `Backend`.
pub record Backend (W : Type 0) : Type 0 where
  pub name : Text
  pub entry : Text
  pub read : W → Result SessionStoreError (Option Text) × W
  pub write : Text → W → Result Text Unit × W
  pub write_preserving : Text → W → Result Text Unit × W
  pub delete : W → Result Text Unit × W

pub data Cache : Type 0 where
  unloaded : Cache
  loaded : Option Credentials → Cache

pub data Persistence : Type 0 where
  writable unreadable replace_invalid volatile : Persistence

pub record State : Type 0 where
  pub cache : Cache
  pub persistence : Persistence
  pub warning : Option Text

pub record SessionStatus : Type 0 where
  pub available : Bool
  pub warning : Option Text

-- The state of `new`.
abbrev pub fresh : State
fresh = record { cache = unloaded; persistence = writable; warning = none }

-- What an operation gives, and the state and the world after it.
pub record Done (W : Type 0) (A : Type 0) : Type 0 where
  pub result : Result SessionStoreError A
  pub state : State
  pub world : W

abbrev pub is_some : {A : Type 0} → Option A → Bool
is_some none = false
is_some (some a) = true

abbrev pub is_unreadable : Persistence → Bool
is_unreadable unreadable = true
is_unreadable _ = false

abbrev is_volatile : Persistence → Bool
is_volatile volatile = true
is_volatile _ = false

abbrev is_replace_invalid : Persistence → Bool
is_replace_invalid replace_invalid = true
is_replace_invalid _ = false

abbrev pub decoded : Formats → Option Text → Option Credentials
decoded formats none = none
decoded formats (some raw) = decode formats raw

abbrev pub failed : {W A : Type 0} → State → SessionStoreError → Persistence → W → Done W A
failed s e p w = record {
  result = err e;
  state = record s { persistence = p; warning = some (warning e) };
  world = w;
}

abbrev message_of : (SessionStoreError → Text) → Result SessionStoreError Unit → Option Text
message_of f (ok u) = none
message_of f (err e) = some (f e)

abbrev only_for_this_run : SessionStoreError → Text
only_for_this_run e =
    to_string e
    ++ codes
        ". The new session is only available for this run; you may need to sign in again after restarting."

module _ {W : Type 0} (formats : Formats) (backend : Backend W) where
  -- The rest of `load`, with what was read.
  unfoldable pub on_raw : Option Text → State → W → Done W (Option Credentials)
  on_raw raw s w =
      if is_some raw && not (is_some (decoded formats raw))
      then failed s (invalid_session backend.name backend.entry) unreadable w
      else record {
        result = ok (decoded formats raw);
        state = record {
          cache = loaded (decoded formats raw);
          persistence = writable;
          warning = none;
        };
        world = w;
      }

  unfoldable pub on_read :
      State → Result SessionStoreError (Option Text) × W → Done W (Option Credentials)
  on_read s (err e, w) = failed s e unreadable w
  on_read s (ok raw, w) = on_raw raw s w

  abbrev load_when : Cache → State → W → Done W (Option Credentials)
  load_when (loaded credentials) s w = record { result = ok credentials; state = s; world = w }
  load_when unloaded s w = on_read s (backend.read w)

  unfoldable pub load : State → W → Done W (Option Credentials)
  load s w = load_when s.cache s w

  unfoldable pub on_inspected :
      Result SessionStoreError (Option Credentials) → State → W → Done W SessionStatus
  on_inspected (ok credentials) s w = record {
    result = ok (record { available = is_some credentials; warning = s.warning });
    state = s;
    world = w;
  }
  on_inspected (err e) s w = record {
    result =
        if allows_volatile_login e || allows_reauthentication e
        then ok (record { available = false; warning = some (warning e) })
        else err e;
    state = s;
    world = w;
  }

  unfoldable pub inspect : State → W → Done W SessionStatus
  inspect s w = let d = load s w in on_inspected d.result d.state d.world

  unfoldable pub on_failed : Bool → SessionStoreError → State → W → Done W (Option Credentials)
  on_failed allow_volatile e s w =
      if allows_reauthentication e
      then record {
        result = ok none;
        state = record s { persistence = replace_invalid; warning = some (warning e) };
        world = w;
      }
      else if allow_volatile && allows_volatile_login e
      then record {
        result = ok none;
        state = record { cache = loaded none; persistence = volatile; warning = some (warning e) };
        world = w;
      }
      else record { result = err e; state = s; world = w }

  unfoldable pub for_password :
      Bool → Result SessionStoreError (Option Credentials) → State → W → Done W (Option Credentials)
  for_password allow_volatile (ok credentials) s w = record {
    result = ok credentials;
    state = s;
    world = w;
  }
  for_password allow_volatile (err e) s w = on_failed allow_volatile e s w

  unfoldable pub load_for_password : Bool → State → W → Done W (Option Credentials)
  load_for_password allow_volatile s w =
      let d = load s w in for_password allow_volatile d.result d.state d.world

  unfoldable pub on_written : State → Result Text Unit × W → Done W Unit
  on_written s (r, w) = record {
    result = map_err (write_error backend.name) r;
    state = record s {
      warning = message_of only_for_this_run (map_err (write_error backend.name) r);
    };
    world = w;
  }

  unfoldable pub save_with_policy : Credentials → Bool → State → W → Done W Unit
  save_with_policy credentials preserve s w =
      if is_unreadable s.persistence
      then record { result = err unreadable_store; state = s; world = w }
      else if is_volatile s.persistence
      then record {
        result = err volatile_session;
        state = record s { cache = loaded (some credentials) };
        world = w;
      }
      else on_written (record s { cache = loaded (some credentials); persistence = writable })
          (if preserve
            then backend.write_preserving (encode formats credentials) w
            else backend.write (encode formats credentials) w)

  unfoldable pub save : Credentials → State → W → Done W Unit
  save credentials s w = save_with_policy credentials false s w

  unfoldable pub on_deleted : State → Result Text Unit × W → Done W Unit
  on_deleted s (r, w) = record {
    result = map_err (delete_error backend.name) r;
    state = record s { warning = message_of to_string (map_err (delete_error backend.name) r) };
    world = w;
  }

  unfoldable pub delete : State → W → Done W Unit
  delete s w =
      if is_unreadable s.persistence || is_replace_invalid s.persistence
      then record { result = err unreadable_store; state = s; world = w }
      else if is_volatile s.persistence
      then record {
        result = err volatile_session;
        state = record s { cache = loaded none };
        world = w;
      }
      else on_deleted (record s { cache = loaded none }) (backend.delete w)

  -- `load_persisted`: a session that lives in memory only is an error.
  unfoldable pub persisted :
      Result SessionStoreError (Option Credentials) → State → W → Done W (Option Credentials)
  persisted (err e) s w = record { result = err e; state = s; world = w }
  persisted (ok credentials) s w =
      if is_volatile s.persistence || (is_some credentials && is_some s.warning)
      then record { result = err persistence_required; state = s; world = w }
      else record { result = ok credentials; state = s; world = w }

  unfoldable pub load_persisted : Bool → State → W → Done W (Option Credentials)
  load_persisted password_supplied s w =
      let d = if password_supplied then load_for_password false s w else load s w in
      persisted d.result d.state d.world
