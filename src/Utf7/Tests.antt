-- ===== src/Utf7/Tests.antt =====
-- A name with a letter that ASCII has not, over an engine that writes a byte as one character.
use tutabridge.Prelude.{
  ℕ, ◌+◌, ◌-◌, ◌≡◌, refl, arith, true, not, some, List, [], ◌∷◌, map, all, ◌==◌,
}
use tutabridge.Prelude.Text.{Text}
use tutabridge.Utf7.Codec.{encode, decode}
use tutabridge.Utf7.RoundTrip.{is_scalar, decode-encode}

abbrev write_byte : ℕ → ℕ
write_byte b = b + 46

abbrev read_byte : ℕ → ℕ
read_byte c = c - 46

map_bytes : (bytes : List ℕ) → map read_byte (map write_byte bytes) ≡ bytes
map_bytes [] = refl
map_bytes (b ∷ bytes) =
    let same : (b + 46) - 46 ≡ b = omega arith in rw (map_bytes bytes, same) refl

dashless : (bytes : List ℕ) → all (λ c. not (c == b'-')) (map write_byte bytes) ≡ true
dashless [] = refl
dashless (b ∷ bytes) = ground (arith, dashless bytes)

-- Café/台
abbrev name : Text
name = 67 ∷ 233 ∷ 38 ∷ 21488 ∷ 128512 ∷ []

decode-encode_example :
    decode
      (map write_byte)
      (λ t. some (map read_byte t))
      (encode (map write_byte) (λ t. some (map read_byte t)) name)
    ≡ some name
decode-encode_example =
    decode-encode (map write_byte) (λ t. some (map read_byte t))
      (λ bytes h. rw (map_bytes bytes) refl) dashless (λ b bytes. refl) name
      (unfold is_scalar in refl)
