-- ===== src/EntryId/Tests.antt =====
-- The identity as an encoding: bytes are their own text.
use tutabridge.Prelude.{
  ℕ, ◌*◌, ◌/◌, ◌^◌, ◌<◌, ◌≡◌, refl, Option, none, some, List, [], ◌∷◌, arith, All, ltb, all,
  if◌then◌else◌, true, Bool,
}
use tutabridge.EntryId.Codec.{Engine, IsEngine, entry, construct, deconstruct}
use tutabridge.EntryId.RoundTrip.{deconstruct-construct}

abbrev checked : Bool → List ℕ → Option (List ℕ)
checked b t = if b then some t else none

-- An engine that takes bytes for their own text, and refuses numbers that are none.
abbrev plain : Engine (List ℕ)
plain = record { encode = λ t. t; decode = λ t. checked (all (λ b. ltb b 256) t) t }

all_bytes : (t : List ℕ) → All (λ b. b < 256) t → all (λ b. ltb b 256) t ≡ true
all_bytes [] h = refl
all_bytes (b ∷ bs) h = ground (arith, all_bytes bs h.1)

bytes_all : (t : List ℕ) → all (λ b. ltb b 256) t ≡ true → All (λ b. b < 256) t
bytes_all [] h = tt
bytes_all (b ∷ bs) h = ground (arith, bytes_all bs)

plain_lawful : IsEngine plain
plain_lawful = record {
  decode_encode = λ bytes h. ground (arith, all_bytes bytes h);
  encode_decode = λ t bytes h. ground arith;
  decode_bytes = λ t bytes h. ground (arith, bytes_all t, bytes_all bytes);
}

abbrev nine : List ℕ
nine = 0 ∷ 0 ∷ 0 ∷ 0 ∷ 0 ∷ 0 ∷ 0 ∷ 0 ∷ 1 ∷ []

deconstruct-construct_example :
    (id : List ℕ) × (construct plain plain 1507038373000 nine ≡ some id)
    × (deconstruct plain plain id ≡ entry (1507038373000 / 2 ^ 10 * 2 ^ 10) nine)
deconstruct-construct_example =
    deconstruct-construct plain plain plain_lawful plain_lawful 1507038373000 nine nine refl refl
      (omega arith)
