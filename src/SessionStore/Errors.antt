-- ===== src/SessionStore/Errors.antt =====
-- `SessionStoreError` and the results of crates/bridge/src/session_store/mod.rs. The failure of the
-- worker thread and a poisoned lock are the runtime's and do not occur here.
use tutabridge.Prelude.{Bool, true, false, ◌++◌, if◌then◌else◌}
use tutabridge.Prelude.Text.{Text, codes}

pub data Result (E : Type 0) (A : Type 0) : Type 0 where
  ok : A → Result E A
  err : E → Result E A

pub data KeyringUnavailableKind : Type 0 where
  storage_access platform : KeyringUnavailableKind

pub data SessionStoreError : Type 0 where
  pass_required : SessionStoreError
  keyring_unavailable : KeyringUnavailableKind → Text → SessionStoreError
  -- The backend and the message.
  read_error : Text → Text → SessionStoreError
  write_error : Text → Text → SessionStoreError
  delete_error : Text → Text → SessionStoreError
  -- The backend and the entry.
  invalid_session : Text → Text → SessionStoreError
  unreadable_store : SessionStoreError
  volatile_session : SessionStoreError
  persistence_required : SessionStoreError

-- The texts of `#[error(...)]`.
unfoldable pub to_string : SessionStoreError → Text
to_string pass_required =
    codes "This platform has no supported keyring; configure a non-empty pass_path to use pass"
to_string (keyring_unavailable kind message) = codes "The keyring is unavailable: " ++ message
to_string (read_error backend message) =
    codes "Could not read the saved session from " ++ (backend ++ (codes ": " ++ message))
to_string (write_error backend message) =
    codes "Could not save the session to " ++ (backend ++ (codes ": " ++ message))
to_string (delete_error backend message) =
    codes "Could not delete the saved session from " ++ (backend ++ (codes ": " ++ message))
to_string (invalid_session backend entry) =
    codes "Saved entry in "
    ++ (backend
        ++ (codes " ("
            ++ (entry
                ++ codes
                    ") contains an invalid session. Sign in with your Tuta password to replace it after successful authentication; automatic resume leaves it unchanged")))
to_string unreadable_store = codes "The saved session could not be read; refusing to change it"
to_string volatile_session =
    codes "The session is only kept in memory; the unreadable saved entry was left unchanged"
to_string persistence_required =
    codes "A persisted session is required; the current session is only available in memory"

unfoldable pub allows_volatile_login : SessionStoreError → Bool
allows_volatile_login (keyring_unavailable kind message) = true
allows_volatile_login _ = false

unfoldable pub allows_reauthentication : SessionStoreError → Bool
allows_reauthentication (invalid_session backend entry) = true
allows_reauthentication _ = false

unfoldable pub warning : SessionStoreError → Text
warning e =
    if allows_volatile_login e
    then to_string e
      ++ codes
          ". You can sign in for this run, but the saved entry will be left untouched and you may need to sign in again after restarting. To retry persistent storage after unlocking the keychain, quit and reopen the application; restarting only the bridge keeps this session in memory."
    else to_string e

-- `map_err`
abbrev pub map_err : {E F A : Type 0} → (E → F) → Result E A → Result F A
map_err f (ok a) = ok a
map_err f (err e) = err (f e)
