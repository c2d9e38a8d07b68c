-- ===== src/Utf7/RoundTrip.antt =====
-- That a mailbox name comes back from the wire (crates/bridge/src/imap/utf7.rs).
use tutabridge.Prelude.{
  ℕ, ◌+◌, ◌*◌, ◌/◌, ◌%◌, arith, sym, ◌∙◌, Bool, true, false, not, ◌&&◌, ◌||◌, Option, none, some,
  List, [], ◌∷◌, ◌++◌, append-nil, append_assoc, all, ltb, leb, ◌==◌, ◌≡◌, refl, Bool-cases, ==_iff,
  inl, inr,
}
use tutabridge.Prelude.Text.{Text, is_empty}
use tutabridge.Utf7.Codec.{
  encode_utf16, to_be_bytes, from_be_bytes, in_front, from_utf16, is_direct, both_texts, flush,
  encode_from, encode, text_of, units_of, decode_chunk, decode_from, decode,
}

-- A `char`: a code point that is no surrogate.
unfoldable pub is_scalar : ℕ → Bool
is_scalar c = ltb c 55296 || (leb 57344 c && ltb c 1114112)

abbrev is_unit : ℕ → Bool
is_unit u = ltb u 65536

abbrev pub is_byte : ℕ → Bool
is_byte b = ltb b 256

unfoldable utf16 : Text → List ℕ
utf16 [] = []
utf16 (c ∷ t) = encode_utf16 c ++ utf16 t

from_be_bytes-to_be_bytes :
    (us : List ℕ) → all is_unit us ≡ true → from_be_bytes (to_be_bytes us) ≡ some us
unfolding from_be_bytes to_be_bytes
from_be_bytes-to_be_bytes [] h = refl
from_be_bytes-to_be_bytes (u ∷ us) h =
    let whole : 256 * (u / 256) + u % 256 ≡ u = omega arith in
    rw (from_be_bytes-to_be_bytes us (ground (arith, h)), whole) refl

bytes_of : (us : List ℕ) → all is_unit us ≡ true → all is_byte (to_be_bytes us) ≡ true
unfolding to_be_bytes
bytes_of [] h = refl
bytes_of (u ∷ us) h = ground (arith, bytes_of us, h)

from_utf16-encode_utf16 :
    (c : ℕ) (us : List ℕ)
    → is_scalar c ≡ true
    → from_utf16 (encode_utf16 c ++ us) ≡ in_front c (from_utf16 us)
unfolding from_utf16 encode_utf16 is_scalar
from_utf16-encode_utf16 c [] h = ground arith
from_utf16-encode_utf16 c (v ∷ us) h = ground arith

from_utf16-utf16 : (t : Text) → all is_scalar t ≡ true → from_utf16 (utf16 t) ≡ some t
unfolding from_utf16 utf16
from_utf16-utf16 [] h = refl
from_utf16-utf16 (c ∷ t) h =
    from_utf16-encode_utf16 c (utf16 t) (ground (arith, h))
    ∙ rw (from_utf16-utf16 t (ground (arith, h))) refl

units_utf16 : (t : Text) → all is_scalar t ≡ true → all is_unit (utf16 t) ≡ true
unfolding utf16 encode_utf16 is_scalar
units_utf16 [] h = refl
units_utf16 (c ∷ t) h = elim (Bool-cases (ltb c 65536)) [
  | inl e ↦ ground (arith, units_utf16 t)
  | inr e ↦ ground (arith, units_utf16 t)
]

utf16-append : (s t : Text) → utf16 (s ++ t) ≡ utf16 s ++ utf16 t
unfolding utf16
utf16-append [] t = refl
utf16-append (c ∷ s) t =
    rw (utf16-append s t) (sym (append_assoc (encode_utf16 c) (utf16 s) (utf16 t)))

utf16-snoc : (t : Text) (c : ℕ) → utf16 (t ++ c ∷ []) ≡ utf16 t ++ encode_utf16 c
unfolding utf16
utf16-snoc t c = utf16-append t (c ∷ []) ∙ rw (append-nil (encode_utf16 c)) refl

scalars_snoc :
    (t : Text) (c : ℕ)
    → all is_scalar t ≡ true
    → is_scalar c ≡ true
    → all is_scalar (t ++ c ∷ []) ≡ true
scalars_snoc [] c h k = ground (arith, k)
scalars_snoc (d ∷ t) c h k = ground (arith, h, k, scalars_snoc t c)

both_none : (t : Option Text) → both_texts (some []) t ≡ t
both_none none = refl
both_none (some t) = refl

module _ (encode64 : List ℕ → Text) (decode64 : Text → Option (List ℕ))
    (reads_back : (bytes : List ℕ)
      → all is_byte bytes ≡ true
      → decode64 (encode64 bytes) ≡ some bytes)
    (no_dash : (bytes : List ℕ) → all (λ c. not (c == b'-')) (encode64 bytes) ≡ true)
    (no_blank : (b : ℕ) (bytes : List ℕ) → is_empty (encode64 (b ∷ bytes)) ≡ false) where
  decode_within :
      (chunk s rest : Text)
      → all (λ c. not (c == b'-')) s ≡ true
      → decode_from encode64 decode64 (some chunk) (s ++ b'-' ∷ rest)
        ≡ both_texts
            (decode_chunk encode64 decode64 (chunk ++ s))
            (decode_from encode64 decode64 none rest)
  unfolding decode_from
  decode_within chunk [] rest h = rw (append-nil chunk) refl
  decode_within chunk (c ∷ s) rest h =
      let e : (c == b'-') ≡ false = ground (arith, h) in
      rw e (
        decode_within (chunk ++ c ∷ []) s rest (ground (arith, h))
        ∙ rw (append_assoc chunk (c ∷ []) s) refl)

  decode_chunk-full :
      (chunk : Text)
      → is_empty chunk ≡ false
      → decode_chunk encode64 decode64 chunk
        ≡ text_of encode64 decode64 (units_of encode64 decode64 (decode64 chunk))
  unfolding decode_chunk
  decode_chunk-full [] h = ground (arith, h)
  decode_chunk-full (c ∷ cs) h = refl

  flush_units :
      (us rest : List ℕ)
      → all is_unit us ≡ true
      → decode_from encode64 decode64 none (flush encode64 decode64 us ++ rest)
        ≡ both_texts (from_utf16 us) (decode_from encode64 decode64 none rest)
  unfolding flush decode_from from_utf16
  flush_units [] rest h = sym (both_none (decode_from encode64 decode64 none rest))
  flush_units (u ∷ us) rest h =
      let sent = encode64 (to_be_bytes (u ∷ us)) in
      let chunk =
        decode_chunk-full sent (unfold to_be_bytes in no_blank (u / 256) (u % 256 ∷ to_be_bytes us))
        ∙ rw (reads_back (to_be_bytes (u ∷ us)) (bytes_of (u ∷ us) h))
            (rw (from_be_bytes-to_be_bytes (u ∷ us) h) refl) in
      rw (append_assoc sent (b'-' ∷ []) rest)
        (decode_within [] sent rest (no_dash (to_be_bytes (u ∷ us))) ∙ rw chunk refl)

  -- What waits in front of a text.
  flush_text :
      (t rest : Text)
      → all is_scalar t ≡ true
      → decode_from encode64 decode64 none (flush encode64 decode64 (utf16 t) ++ rest)
        ≡ both_texts (some t) (decode_from encode64 decode64 none rest)
  flush_text t rest h =
      flush_units (utf16 t) rest (units_utf16 t h) ∙ rw (from_utf16-utf16 t h) refl

  decode-encode_from :
      (t s : Text)
      → all is_scalar t ≡ true
      → all is_scalar s ≡ true
      → decode_from encode64 decode64 none (encode_from encode64 decode64 (utf16 t) s)
        ≡ some (t ++ s)
  unfolding encode_from utf16 decode_from decode_chunk
  decode-encode_from t [] h k =
      rw (sym (append-nil (flush encode64 decode64 (utf16 t)))) (flush_text t [] h)
  decode-encode_from t (c ∷ s) h k =
      let fresh = encode_from encode64 decode64 [] s in
      let rest = decode-encode_from [] s refl (ground (arith, k)) in
      elim (Bool-cases (c == b'&')) [
        | inl e ↦
            rw e (flush_text t (b'&' ∷ b'-' ∷ fresh) h ∙ rw rest (rw ((==_iff c b'&').0 e) refl))
        | inr e ↦ elim (Bool-cases (is_direct c)) [
          | inl d ↦ rw (d, e) (flush_text t (c ∷ fresh) h ∙ rw e (rw rest refl))
          | inr d ↦
              rw (d, e, sym (utf16-snoc t c))
                (decode-encode_from (t ++ c ∷ []) s (scalars_snoc t c h (ground (arith, k)))
                    (ground (arith, k))
                  ∙ rw (append_assoc t (c ∷ []) s) refl)
        ]
      ]

  -- Every mailbox name comes back from its encoded form, whatever the characters in it. Of the base64
  -- engine it is used that it reads back what it writes, writes no dash, and writes something for some
  -- bytes.
  pub decode-encode :
      (name : Text) (name_of_chars : all is_scalar name ≡ true)
      → decode encode64 decode64 (encode encode64 decode64 name) ≡ some name
  unfolding decode encode
  decode-encode name h = unfold utf16 in decode-encode_from [] name refl h
