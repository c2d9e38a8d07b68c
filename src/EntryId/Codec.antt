-- ===== src/EntryId/Codec.antt =====
-- `construct` and `deconstruct` (crates/tuta/src/mail_set_entry_id.rs). Bytes are numbers. The two
-- base64 engines belong to a library: they are a record of an encoder and a decoder each.
use tutabridge.Prelude.{
  ℕ, ◌+◌, ◌*◌, ◌/◌, ◌%◌, ◌^◌, ◌<◌, ◌≡◌, Option, none, some, List, [], ◌∷◌, ◌++◌, ◌==◌,
  if◌then◌else◌, length, take, drop, All,
}

pub record Engine (Text : Type 0) : Type 0 where
  pub encode : List ℕ → Text
  pub decode : Text → Option (List ℕ)

-- What base64 engines that refuse stray bits at the end do.
pub record IsEngine {Text : Type 0} (e : Engine Text) : Type 0 where
  pub decode_encode :
      (bytes : List ℕ) → All (λ b. b < 256) bytes → e.decode (e.encode bytes) ≡ some bytes
  pub encode_decode : (t : Text) (bytes : List ℕ) → e.decode t ≡ some bytes → e.encode bytes ≡ t
  pub decode_bytes :
      (t : Text) (bytes : List ℕ) → e.decode t ≡ some bytes → All (λ b. b < 256) bytes

abbrev pub mail_id_bytes : ℕ
mail_id_bytes = 9

abbrev pub timestamp_bytes : ℕ
timestamp_bytes = 4

abbrev pub mail_set_entry_id_bytes : ℕ
mail_set_entry_id_bytes = 13

pub data MailSetEntryIdError : Type 0 where
  invalid_base64url : MailSetEntryIdError
  wrong_length : ℕ → MailSetEntryIdError

pub data Parsed (GeneratedId : Type 0) : Type 0 where
  err : MailSetEntryIdError → Parsed GeneratedId
  entry : ℕ → GeneratedId → Parsed GeneratedId

-- `to_be_bytes` of 32 bits.
unfoldable pub to_be_bytes : ℕ → List ℕ
to_be_bytes t = t / 2 ^ 24 % 256 ∷ t / 2 ^ 16 % 256 ∷ t / 2 ^ 8 % 256 ∷ t % 256 ∷ []

unfoldable pub from_be_bytes : List ℕ → ℕ
from_be_bytes (a ∷ b ∷ c ∷ d ∷ []) = a * 2 ^ 24 + b * 2 ^ 16 + c * 2 ^ 8 + d
from_be_bytes _ = 0

module _ {CustomId GeneratedId : Type 0} (url : Engine CustomId) (ext : Engine GeneratedId) where
  unfoldable pub pack : ℕ → Option (List ℕ) → Option CustomId
  unfolding to_be_bytes
  pack millis none = none
  pack millis (some mail_bytes) =
      if length mail_bytes == mail_id_bytes
      then some (url.encode (to_be_bytes (millis / 2 ^ 10 % 2 ^ 32) ++ mail_bytes))
      else none

  -- `none` where the code panics.
  unfoldable pub construct : ℕ → GeneratedId → Option CustomId
  unfolding pack
  construct millis mail_id = pack millis (ext.decode mail_id)

  -- The shift to the left is one of 64 bits.
  unfoldable pub unpack : Option (List ℕ) → Parsed GeneratedId
  unfolding from_be_bytes
  unpack none = err invalid_base64url
  unpack (some buffer) =
      if length buffer == mail_set_entry_id_bytes
      then entry (from_be_bytes (take timestamp_bytes buffer) * 2 ^ 10 % 2 ^ 64)
          (ext.encode (drop timestamp_bytes buffer))
      else err (wrong_length (length buffer))

  unfoldable pub deconstruct : CustomId → Parsed GeneratedId
  unfolding unpack
  deconstruct id = unpack (url.decode id)
