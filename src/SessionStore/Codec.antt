-- ===== src/SessionStore/Codec.antt =====
-- The saved form of a session, crates/bridge/src/session_store/codec.rs: a JSON object of strings, the
-- key in base64. serde_json and base64 are parameters.
use tutabridge.Prelude.{ℕ, String, Option, none, some, List, ◌=s◌, if◌then◌else◌}
use tutabridge.Prelude.Text.{Text}
use tutabridge.Prelude.Json.{Value, object, no_fields, field, string, get, as_str}

pub data CredentialType : Type 0 where
  internal external : CredentialType

pub record Credentials : Type 0 where
  pub login : String
  pub user_id : String
  pub access_token : String
  pub encrypted_passphrase_key : List ℕ
  pub credential_type : CredentialType

-- serde_json and the standard engine of base64.
pub record Formats : Type 0 where
  pub to_text : Value → Text
  pub from_slice : Text → Option Value
  pub to_base64 : List ℕ → String
  pub from_base64 : String → Option (List ℕ)

unfoldable pub type_name : CredentialType → String
type_name internal = "Internal"
type_name external = "External"

unfoldable pub type_named : String → CredentialType
type_named name = if name =s "External" then external else internal

abbrev bind : {A B : Type 0} → Option A → (A → Option B) → Option B
bind none f = none
bind (some a) f = f a

-- The object that `json!` builds.
unfoldable pub to_value : Formats → Credentials → Value
to_value formats c = object (
    field "login" (string c.login) (
      field "user_id" (string c.user_id) (
        field "access_token" (string c.access_token) (
          field "encrypted_passphrase_key" (string (formats.to_base64 c.encrypted_passphrase_key))
            (field "credential_type" (string (type_name c.credential_type)) no_fields)))))

unfoldable pub encode : Formats → Credentials → Text
unfolding to_value
encode formats c = formats.to_text (to_value formats c)

-- A missing key reads as null, which is not a string.
unfoldable pub from_value : Formats → Value → Option Credentials
from_value formats v = bind (as_str (get "login" v)) (λ login.
    bind (as_str (get "user_id" v)) (λ user_id.
      bind (as_str (get "access_token" v)) (λ access_token.
        bind (as_str (get "encrypted_passphrase_key" v)) (λ encoded.
          bind (formats.from_base64 encoded) (λ key.
            bind (as_str (get "credential_type" v)) (λ name. some (record {
              login = login;
              user_id = user_id;
              access_token = access_token;
              encrypted_passphrase_key = key;
              credential_type = type_named name;
            })))))))

unfoldable pub decode : Formats → Text → Option Credentials
unfolding from_value
decode formats json = bind (formats.from_slice json) (from_value formats)
