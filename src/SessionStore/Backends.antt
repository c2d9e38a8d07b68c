-- ===== src/SessionStore/Backends.antt =====
-- The two backends of crates/bridge/src/session_store/: the keyring of the platform (keyring.rs) and the
-- password store (pass.rs), on a platform that has a keyring. The keyring crate, the file system and
-- the command `pass` are parameters; a secret stands for its bytes. How pass replaces an entry through
-- a staging directory is left out, so that operation is a parameter as well.
use tutabridge.Prelude.{Bool, Option, none, some, ◌∷◌, ◌++◌, if◌then◌else◌}
use tutabridge.Prelude.Text.{Text, codes}
use tutabridge.SessionStore.Errors.{
  Result, ok, err, map_err, SessionStoreError, read_error, keyring_unavailable, storage_access,
  platform,
}
use tutabridge.SessionStore.State.{Backend}

-- `keyring::Error`, with what its message says.
pub data KeyringError : Type 0 where
  ambiguous : KeyringError
  bad_encoding : Text → KeyringError
  no_entry no_storage_access platform_failure other_error : Text → KeyringError

-- `keyring::Entry` of the service and an account.
pub record KeyringEntry (W : Type 0) : Type 0 where
  pub get_password : W → Result KeyringError Text × W
  pub set_password : Text → W → Result KeyringError Unit × W
  pub delete_credential : W → Result KeyringError Unit × W

unfoldable pub diagnostic : KeyringError → Text
diagnostic ambiguous = codes "multiple matching keyring entries"
diagnostic (bad_encoding bytes) = codes "the saved session is not UTF-8"
diagnostic (no_entry message) = message
diagnostic (no_storage_access message) = message
diagnostic (platform_failure message) = message
diagnostic (other_error message) = message

unfoldable classify_read_result : Result KeyringError Text → Result SessionStoreError (Option Text)
unfolding diagnostic
classify_read_result (ok secret) = ok (some secret)
classify_read_result (err (bad_encoding bytes)) = ok (some bytes)
classify_read_result (err (no_entry message)) = ok none
classify_read_result (err (no_storage_access m)) = err (keyring_unavailable storage_access m)
classify_read_result (err (platform_failure m)) = err (keyring_unavailable platform m)
classify_read_result (err e) = err (read_error (codes "the keychain") (diagnostic e))

abbrev pub deleted : Result KeyringError Unit → Result Text Unit
deleted (err (no_entry message)) = ok tt
deleted r = map_err diagnostic r

unfoldable pub keyring_backend : {W : Type 0} → KeyringEntry W → Text → Backend W
unfolding classify_read_result
keyring_backend k email = record {
  name = codes "the keychain";
  entry = codes "service tutabridge, account " ++ email;
  read = λ w. let r = k.get_password w in (classify_read_result r.0, r.1);
  write = λ secret w. let r = k.set_password secret w in (map_err diagnostic r.0, r.1);
  write_preserving = λ secret w. let r = k.set_password secret w in (map_err diagnostic r.0, r.1);
  delete = λ w. let r = k.delete_credential w in (deleted r.0, r.1);
}

-- How a run of the command ends.
pub data Ran : Type 0 where
  not_run : Text → Ran
  -- Writing its input failed: the child is killed.
  input_failed : Text → Ran
  -- Success, the status, its output and its errors.
  exited : Bool → Text → Text → Text → Ran

-- What the program asks of the system in one password store.
pub record PassCommands (W : Type 0) : Type 0 where
  pub try_exists : Text → W → Result Text Bool
  pub show : Text → W → Ran × W
  pub insert : Text → Text → W → Ran × W
  pub rm : Text → W → Ran × W
  -- `from_utf8_lossy` and `trim`.
  pub lossy : Text → Text

pub record PassStore : Type 0 where
  pub entry : Text
  pub directory : Option Text

-- `Err` of a directory that is not known.
abbrev in_directory : {A : Type 0} → Option Text → (Text → Result Text A) → Result Text A
in_directory none f = err (codes "cannot locate the password store")
in_directory (some directory) f = f directory

abbrev cannot_inspect : Text → Text
cannot_inspect message = codes "cannot inspect pass entry: " ++ message

module _ {W : Type 0} (commands : PassCommands W) where
  unfoldable entry_exists : PassStore → W → Result Text Bool
  entry_exists store w = in_directory store.directory (λ directory.
      map_err cannot_inspect
        (commands.try_exists (directory ++ (b'/' ∷ (store.entry ++ codes ".gpg"))) w))

  abbrev pub shown : Ran → Result Text (Option Text)
  shown (not_run message) = err (codes "cannot run pass: " ++ message)
  shown (input_failed message) = err (codes "cannot run pass: " ++ message)
  shown (exited success status output errors) =
      if success
      then ok (some output)
      else err (codes "pass show exited with " ++ (status ++ (codes ": " ++ commands.lossy errors)))

  abbrev read_existing : PassStore → Result Text Bool → W → Result Text (Option Text) × W
  read_existing store (err e) w = (err e, w)
  read_existing store (ok exists) w =
      let r = commands.show store.entry w in if exists then (shown r.0, r.1) else (ok none, w)

  unfoldable pub read : PassStore → W → Result Text (Option Text) × W
  unfolding entry_exists
  read store w = read_existing store (entry_exists store w) w

  abbrev inserted : Ran → Result Text Unit
  inserted (not_run message) = err (codes "cannot run pass: " ++ message)
  inserted (input_failed message) = err (codes "cannot write to pass: " ++ message)
  inserted (exited success status output errors) =
      if success
      then ok tt
      else err
          (codes "pass insert exited with " ++ (status ++ (codes ": " ++ commands.lossy errors)))

  abbrev write_in : PassStore → Text → Option Text → W → Result Text Unit × W
  write_in store secret none w = (err (codes "cannot locate the password store"), w)
  write_in store secret (some directory) w =
      let r = commands.insert store.entry secret w in (inserted r.0, r.1)

  unfoldable pub write : PassStore → Text → W → Result Text Unit × W
  write store secret w = write_in store secret store.directory w

  abbrev pub removed : Ran → Result Text Unit
  removed (not_run message) = err (codes "cannot run pass: " ++ message)
  removed (input_failed message) = err (codes "cannot run pass: " ++ message)
  removed (exited success status output errors) =
      if success then ok tt else err (codes "pass rm exited with " ++ status)

  abbrev delete_existing : PassStore → Result Text Bool → W → Result Text Unit × W
  delete_existing store (err e) w = (err e, w)
  delete_existing store (ok exists) w =
      let r = commands.rm store.entry w in if exists then (removed r.0, r.1) else (ok tt, w)

  unfoldable pub delete : PassStore → W → Result Text Unit × W
  unfolding entry_exists
  delete store w = delete_existing store (entry_exists store w) w

  unfoldable pass_backend : (Text → W → Result Text Unit × W) → PassStore → Backend W
  unfolding read write delete
  pass_backend replace store = record {
    name = codes "pass";
    entry = store.entry;
    read = λ w. let r = read store w in (map_err (read_error (codes "pass")) r.0, r.1);
    write = write store;
    write_preserving = replace;
    delete = delete store;
  }
