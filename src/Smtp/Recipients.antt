-- ===== src/Smtp/Recipients.antt =====
-- Who gets a message that the server passes on (crates/bridge/src/smtp/mod.rs).
use tutabridge.Prelude.{◌≡◌, refl, true, ◌||◌, List, [], ◌∷◌, ◌++◌, arith, any}
use tutabridge.Prelude.Text.{Text, same_text, same_text_iff}
use tutabridge.Smtp.Server.{Setup, ParsedMessage, is_named, names, hidden, with_envelope}

module _ {B : Type 0} (setup : Setup B) where
  any-append :
      (r : Text) (xs ys : List (Text × Text))
      → any (names setup r) (xs ++ ys) ≡ (any (names setup r) xs || any (names setup r) ys)
  any-append r [] ys = refl
  any-append r (x ∷ xs) ys = ground (arith, any-append r xs ys)

  is_named_lem :
      (parsed : ParsedMessage B) (r : Text)
      → is_named setup parsed r ≡ (
          any (names setup r) parsed.to
          || (any (names setup r) parsed.cc || any (names setup r) parsed.bcc))
  unfolding is_named
  is_named_lem parsed r =
      ground
        (arith, any-append r parsed.to (parsed.cc ++ parsed.bcc), any-append r parsed.cc parsed.bcc)

  -- The recipient is named by a header, or is among the hidden ones.
  reached :
      (parsed : ParsedMessage B) (r : Text) (rcpts : List Text)
      → any (λ x. same_text x r) rcpts ≡ true
      → (is_named setup parsed r || any (names setup r) (hidden setup parsed rcpts)) ≡ true
  unfolding hidden
  reached parsed r [] h = ground arith
  reached parsed r (x ∷ xs) h =
      ground (
        arith,
        reached parsed r xs,
        same_text_iff x r,
        same_text_iff (setup.lower x) (setup.lower r),
      )

  -- Every recipient of the envelope is named by the message that is passed on, by a header that the
  -- message had or as a hidden copy, and the headers that it had stay.
  pub with_envelope_lem :
      (parsed : ParsedMessage B) (rcpts : List Text) (r : Text)
      → any (λ x. same_text x r) rcpts ≡ true
      → let message = with_envelope setup parsed rcpts in
        (is_named setup message r ≡ true)
        × (message.to ≡ parsed.to)
        × (message.cc ≡ parsed.cc)
        × (message.content ≡ parsed.content)
  unfolding with_envelope
  with_envelope_lem parsed rcpts r h = (
    ground (
      arith,
      reached parsed r rcpts h,
      is_named_lem parsed r,
      is_named_lem (with_envelope setup parsed rcpts) r,
      any-append r parsed.bcc (hidden setup parsed rcpts),
    ),
    refl,
    refl,
    refl,
  )
