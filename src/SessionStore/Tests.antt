-- ===== src/SessionStore/Tests.antt =====
-- A keyring that holds one entry, locked or not, and a session that is saved in it.
use tutabridge.Prelude.{
  ℕ, ◌≡◌, refl, true, false, String, Option, none, some, List, [], ◌∷◌, ◌=s◌, if◌then◌else◌,
}
use tutabridge.Prelude.Text.{Text, codes, is_empty}
use tutabridge.Prelude.Json.{Value}
use tutabridge.SessionStore.Errors.{Result, ok, err, keyring_unavailable, storage_access}
use tutabridge.SessionStore.Codec.{Credentials, external, Formats, to_value, encode, decode}
use tutabridge.SessionStore.State.{Backend, fresh, save_with_policy, load, delete}
use tutabridge.SessionStore.Store.{
  Call, load_interactive, inspect, save, save_preserving, delete as delete_call, load_persisted,
  calls,
}
use tutabridge.SessionStore.Backends.{KeyringError, no_storage_access, no_entry, keyring_backend}
use tutabridge.SessionStore.Protected.{calls-read_error}
use tutabridge.SessionStore.Corrupt.{calls-invalid_session}
use tutabridge.SessionStore.RoundTrip.{load-save, load-save_delete}

abbrev me : Credentials
me = record {
  login = "me@tuta.io";
  user_id = "fakeuser0";
  access_token = "example-token";
  encrypted_passphrase_key = 0 ∷ 255 ∷ [];
  credential_type = external;
}

abbrev base64 : List ℕ → String
base64 [] = ""
base64 _ = "AP8="

abbrev unbase64 : String → Option (List ℕ)
unbase64 s = if s =s "AP8=" then some (0 ∷ 255 ∷ []) else none

abbrev saved : Value
saved =
    to_value
      (record {
        to_text = λ v. [];
        from_slice = λ t. none;
        to_base64 = base64;
        from_base64 = unbase64;
      })
      me

-- A reader that knows one text.
abbrev formats : Formats
formats = record {
  to_text = λ v. b'{' ∷ [];
  from_slice = λ t. if is_empty t then none else some saved;
  to_base64 = base64;
  from_base64 = unbase64;
}

abbrev answer : Option Text → Result KeyringError Text
answer none = err (no_entry (codes "No matching entry"))
answer (some secret) = ok secret

abbrev unlocked : Backend (Option Text)
unlocked =
    keyring_backend
      (record {
        get_password = λ w. (answer w, w);
        set_password = λ secret w. (ok tt, some secret);
        delete_credential = λ w. (ok tt, none);
      })
      (codes "me@tuta.io")

-- It cannot be read, though it would take a write.
abbrev locked : Backend (Option Text)
locked =
    keyring_backend
      (record {
        get_password = λ w. (err (no_storage_access (codes "locked")), w);
        set_password = λ secret w. (ok tt, some secret);
        delete_credential = λ w. (ok tt, none);
      })
      (codes "me@tuta.io")

abbrev uses : List Call
uses = save me ∷ delete_call ∷ save_preserving me ∷ load_persisted true ∷ delete_call ∷ []

calls-read_error_example :
    (calls formats locked (ok tt) (load_interactive ∷ uses) (fresh, some (codes "old"))).1
    ≡ some (codes "old")
unfolding keyring_backend tutabridge.SessionStore.Errors.allows_reauthentication
calls-read_error_example =
    calls-read_error formats locked (keyring_unavailable storage_access (codes "locked"))
      (some (codes "old")) refl refl load_interactive uses refl

abbrev cautious : List Call
cautious = save me ∷ load_persisted true ∷ delete_call ∷ inspect ∷ save me ∷ load_interactive ∷ []

calls-invalid_session_example :
    (calls formats unlocked (ok tt) (inspect ∷ cautious) (fresh, some [])).1 ≡ some []
unfolding keyring_backend decode tutabridge.SessionStore.Corrupt.authorises_none
calls-invalid_session_example =
    calls-invalid_session formats unlocked [] (some []) refl refl inspect cautious refl refl

load-save_example :
    (load formats unlocked fresh
      (save_with_policy formats unlocked me false fresh none).world).result
    ≡ ok (some me)
unfolding to_value save_with_policy tutabridge.SessionStore.State.on_written keyring_backend
load-save_example =
    load-save formats me refl refl unlocked fresh none (some (encode formats me)) refl refl

load-save_delete_example :
    let d = save_with_policy formats locked me true fresh none in
    let e = delete formats locked d.state d.world in
    (load formats locked d.state d.world
      ≡ record { result = ok (some me); state = d.state; world = d.world })
    × (load formats locked e.state e.world
        ≡ record { result = ok none; state = e.state; world = e.world })
load-save_delete_example = load-save_delete formats locked me true fresh none refl
