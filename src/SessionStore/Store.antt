-- ===== src/SessionStore/Store.antt =====
-- `SessionStore` of crates/bridge/src/session_store/mod.rs: which backend a configuration selects, and
-- what each public method does to the shared state. The lock makes the methods follow one another.
use tutabridge.Prelude.{
  Bool, true, false, ◌&&◌, Option, none, some, List, [], ◌∷◌, ◌++◌, ◌==◌, if◌then◌else◌,
}
use tutabridge.Prelude.Text.{Text, codes, is_empty, trim, same_text}
use tutabridge.SessionStore.Errors.{Result, ok, err, SessionStoreError, pass_required}
use tutabridge.SessionStore.Codec.{Credentials, Formats}
use tutabridge.SessionStore.State.{
  Backend, State, Done, load_for_password, save_with_policy, load as load_state,
  inspect as inspect_state, save as save_state, delete as delete_state,
  load_persisted as load_persisted_state,
}

pub data Selection : Type 0 where
  keyring : Selection
  pass : Text → Selection

pub record Config : Type 0 where
  pub email : Text
  pub api_url : Text
  pub pass_path : Option Text

pub record Context : Type 0 where
  pub email : Text
  pub api_url : Text
  pub selection : Selection

abbrev selected : Text → Text → Selection
selected email prefix = if is_empty prefix then keyring else pass (prefix ++ (b'/' ∷ email))

unfoldable selection_from_config : Option Text → Text → Selection
selection_from_config none email = keyring
selection_from_config (some path) email = selected email (trim (λ c. c == b'/') path)

unfoldable from_config : Config → Context
unfolding selection_from_config
from_config config = record {
  email = config.email;
  api_url = config.api_url;
  selection = selection_from_config config.pass_path config.email;
}

unfoldable same_selection : Selection → Selection → Bool
same_selection keyring keyring = true
same_selection (pass a) (pass b) = same_text a b
same_selection _ _ = false

unfoldable matches_config : Context → Config → Bool
unfolding from_config same_selection
matches_config context config =
    let other = from_config config in
    same_text context.email other.email
    && (same_text context.api_url other.api_url && same_selection context.selection other.selection)

unfoldable describe : Selection → Text
describe keyring = codes "the keychain"
describe (pass entry) = codes "pass (" ++ (entry ++ codes ")")

unfoldable validate : Bool → Selection → Result SessionStoreError Unit
validate keyring_supported keyring = if keyring_supported then ok tt else err pass_required
validate keyring_supported (pass entry) = ok tt

-- `run`: a selection that the platform does not have is refused before any work.
unfoldable pub run :
    {W A : Type 0} → Result SessionStoreError Unit → (State → W → Done W A) → State → W → Done W A
run (err e) operation s w = record { result = err e; state = s; world = w }
run (ok u) operation s w = operation s w

-- The public methods.
pub data Call : Type 0 where
  load inspect load_interactive delete : Call
  load_persisted : Bool → Call
  save save_preserving : Credentials → Call

abbrev pub kept : {W A : Type 0} → Done W A → State × W
kept d = (d.state, d.world)

module _ {W : Type 0} (formats : Formats) (backend : Backend W) where
  unfoldable pub call : Result SessionStoreError Unit → Call → State → W → State × W
  call valid load s w = kept (run valid (load_state formats backend) s w)
  call valid inspect s w = kept (run valid (inspect_state formats backend) s w)
  call valid load_interactive s w = kept (run valid (load_for_password formats backend true) s w)
  call valid delete s w = kept (run valid (delete_state formats backend) s w)
  call valid (load_persisted password_supplied) s w =
      kept (run valid (load_persisted_state formats backend password_supplied) s w)
  call valid (save c) s w = kept (run valid (save_state formats backend c) s w)
  call valid (save_preserving c) s w =
      kept (run valid (save_with_policy formats backend c true) s w)

  unfoldable pub calls : Result SessionStoreError Unit → List Call → State × W → State × W
  calls valid [] sw = sw
  calls valid (c ∷ cs) sw = calls valid cs (call valid c sw.0 sw.1)
