-- ===== src/Mime/Library.antt =====
-- What crates/bridge/src/mail/ calls of the standard library and of the base64 engine.
use tutabridge.Prelude.{ℕ, Bool, Option, List}
use tutabridge.Prelude.Text.{Text}

pub record Library : Type 0 where
  -- `char::is_whitespace`
  pub white : ℕ → Bool
  pub to_lowercase : Text → Text
  pub to_uppercase : Text → Text
  pub as_bytes : Text → List ℕ
  pub from_utf8 : List ℕ → Option Text
  pub from_utf8_lossy : List ℕ → Text
  -- `base64::STANDARD`
  pub encode64 : List ℕ → Text
  pub decode64 : Text → Option (List ℕ)
