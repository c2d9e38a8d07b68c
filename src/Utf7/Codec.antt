-- ===== src/Utf7/Codec.antt =====
-- `encode` and `decode` (crates/bridge/src/imap/utf7.rs). The base64 engine is an argument. Bytes and
-- 16-bit units are numbers; a `char` is its scalar value. What a loop has gathered so far is an
-- argument: the units that wait to be flushed, and the chunk behind an `&`.
use tutabridge.Prelude.{
  ℕ, ◌+◌, ◌-◌, ◌*◌, ◌/◌, ◌%◌, Bool, not, ◌&&◌, ◌||◌, Option, none, some, List, [], ◌∷◌, ◌++◌, ltb,
  leb, ◌==◌, if◌then◌else◌,
}
use tutabridge.Prelude.Text.{Text}

-- `char::encode_utf16`.
unfoldable pub encode_utf16 : ℕ → List ℕ
encode_utf16 c =
    if ltb c 65536 then c ∷ [] else (55296 + (c - 65536) / 1024) ∷ (56320 + (c - 65536) % 1024) ∷ []

-- `u16::to_be_bytes`, unit by unit.
unfoldable pub to_be_bytes : List ℕ → List ℕ
to_be_bytes [] = []
to_be_bytes (u ∷ us) = u / 256 ∷ u % 256 ∷ to_be_bytes us

-- `u16::from_be_bytes` on pairs; a byte that is left over makes the number of bytes odd.
unfoldable pub from_be_bytes : List ℕ → Option (List ℕ)
from_be_bytes [] = some []
from_be_bytes (a ∷ []) = none
from_be_bytes (a ∷ b ∷ bytes) = elim (from_be_bytes bytes) [
  | none ↦ none
  | some us ↦ some ((256 * a + b) ∷ us)
]

abbrev pub is_high : ℕ → Bool
is_high u = leb 55296 u && ltb u 56320

abbrev pub is_low : ℕ → Bool
is_low u = leb 56320 u && ltb u 57344

abbrev pub in_front : ℕ → Option Text → Option Text
in_front c none = none
in_front c (some t) = some (c ∷ t)

-- `String::from_utf16`: a lone surrogate is an error.
unfoldable pub from_utf16 : List ℕ → Option Text
from_utf16 [] = some []
from_utf16 (u ∷ []) = if is_high u || is_low u then none else some (u ∷ [])
from_utf16 (u ∷ v ∷ us) =
    let pair = from_utf16 us in
    let single = from_utf16 (v ∷ us) in
    if is_high u
    then if is_low v then in_front (65536 + ((u - 55296) * 1024 + (v - 56320))) pair else none
    else if is_low u
    then none
    else in_front u single

unfoldable pub is_direct : ℕ → Bool
is_direct c = leb 32 c && (leb c 126 && not (c == b'&'))

abbrev pub both_texts : Option Text → Option Text → Option Text
both_texts none t = none
both_texts (some s) none = none
both_texts (some s) (some t) = some (s ++ t)

module _ (encode64 : List ℕ → Text) (decode64 : Text → Option (List ℕ)) where
  unfoldable pub flush : List ℕ → Text
  flush [] = []
  flush (u ∷ us) = b'&' ∷ (encode64 (to_be_bytes (u ∷ us)) ++ b'-' ∷ [])

  unfoldable pub encode_from : List ℕ → Text → Text
  unfolding flush is_direct encode_utf16
  encode_from shifted [] = flush shifted
  encode_from shifted (c ∷ cs) =
      let fresh = encode_from [] cs in
      let gathered = encode_from (shifted ++ encode_utf16 c) cs in
      if c == b'&'
      then flush shifted ++ b'&' ∷ b'-' ∷ fresh
      else if is_direct c
      then flush shifted ++ c ∷ fresh
      else gathered

  unfoldable pub encode : Text → Text
  unfolding encode_from
  encode input = encode_from [] input

  abbrev pub text_of : Option (List ℕ) → Option Text
  text_of none = none
  text_of (some us) = from_utf16 us

  abbrev pub units_of : Option (List ℕ) → Option (List ℕ)
  units_of none = none
  units_of (some bytes) = from_be_bytes bytes

  -- What stands between `&` and `-`.
  unfoldable pub decode_chunk : Text → Option Text
  decode_chunk [] = some (b'&' ∷ [])
  decode_chunk (c ∷ cs) = text_of (units_of (decode64 (c ∷ cs)))

  unfoldable pub decode_from : Option Text → List ℕ → Option Text
  unfolding decode_chunk
  decode_from none [] = some []
  decode_from (some chunk) [] = none
  decode_from none (b ∷ bytes) =
      let within = decode_from (some []) bytes in
      let behind = decode_from none bytes in if b == b'&' then within else in_front b behind
  decode_from (some chunk) (b ∷ bytes) =
      let within = decode_from (some (chunk ++ b ∷ [])) bytes in
      let behind = decode_from none bytes in
      if b == b'-' then both_texts (decode_chunk chunk) behind else within

  unfoldable pub decode : List ℕ → Option Text
  unfolding decode_from
  decode bytes = decode_from none bytes
