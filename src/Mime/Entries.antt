-- ===== src/Mime/Entries.antt =====
-- How the reader of address lists walks over what the writer of addresses writes
-- (crates/bridge/src/mail/parser.rs and rfc2822.rs).
use tutabridge.Prelude.{
  ℕ, ◌≡◌, refl, ap, ◌∙◌, Bool, true, false, not, ◌&&◌, ◌||◌, List, [], ◌∷◌, ◌++◌, keep, any, all,
  ◌==◌, if◌then◌else◌, arith, Bool-cases, inl, inr, append_assoc,
}
use tutabridge.Prelude.Text.{Text, codes, push, is_empty}
use tutabridge.Wire.{replace}
use tutabridge.Mime.Library.{Library}
use tutabridge.Mime.Strings.{is_ascii}
use tutabridge.Mime.Words.{breaks, encode_header_value}
use tutabridge.Mime.Addresses.{
  is_rfc5322_special, needs_quoting, delimits, cleaned, in_angles, quoted, format_name_and_address,
  entries,
}

-- A character that the reader passes outside quotes.
abbrev pub bare : ℕ → Bool
bare c = not (c == b'"' || (c == b'<' || (c == b'>' || c == b',')))

abbrev pub onto : Text → List Text → List Text
onto [] ws = ws
onto (c ∷ m) ws = push c (onto m ws)

onto-append : (m n : Text) (ws : List Text) → onto (m ++ n) ws ≡ onto m (onto n ws)
onto-append [] n ws = refl
onto-append (c ∷ m) n ws = ap (push c) (onto-append m n ws)

pub onto-first : (m w : Text) (ws : List Text) → onto m (w ∷ ws) ≡ (m ++ w) ∷ ws
onto-first [] w ws = refl
onto-first (c ∷ m) w ws = ap (push c) (onto-first m w ws)

bare_step :
    (d c : ℕ) (s : Text)
    → bare c ≡ true
    → entries d false false (c ∷ s) ≡ push c (entries d false false s)
unfolding entries
bare_step d c s h = ground arith

entries-bare :
    (d : ℕ) (s t : Text)
    → all bare s ≡ true
    → entries d false false (s ++ t) ≡ onto s (entries d false false t)
entries-bare d [] t h = refl
entries-bare d (c ∷ s) t h =
    bare_step d c (s ++ t) (ground arith) ∙ ap (push c) (entries-bare d s t (ground arith))

abbrev escaped : Text → Text
escaped name = replace b'"' (92 ∷ b'"' ∷ []) (replace 92 (92 ∷ 92 ∷ []) name)

abbrev escape : ℕ → Text
escape c = if c == 92 then 92 ∷ 92 ∷ [] else if c == b'"' then 92 ∷ b'"' ∷ [] else c ∷ []

escaped_step : (c : ℕ) (name : Text) → escaped (c ∷ name) ≡ escape c ++ escaped name
unfolding replace
escaped_step c name = ground arith

entries-escape :
    (c : ℕ) (t : Text)
    → entries 0 true false (escape c ++ t) ≡ onto (escape c) (entries 0 true false t)
unfolding entries
entries-escape c t = ground arith

entries-quote : (t : Text) → entries 0 true false (b'"' ∷ t) ≡ push b'"' (entries 0 false false t)
unfolding entries
entries-quote t = refl

entries-escaped :
    (name t : Text)
    → entries 0 true false (escaped name ++ t) ≡ onto (escaped name) (entries 0 true false t)
unfolding replace
entries-escaped [] t = refl
entries-escaped (c ∷ name) t =
    rw
      (
        escaped_step c name,
        append_assoc (escape c) (escaped name) t,
        entries-escape c (escaped name ++ t),
        entries-escaped name t,
        onto-append (escape c) (escaped name) (entries 0 true false t),
      )
      refl

entries-angles :
    (a t : Text)
    → all bare a ≡ true
    → entries 0 false false (b' ' ∷ b'<' ∷ (a ++ b'>' ∷ t))
      ≡ onto (b' ' ∷ b'<' ∷ (a ++ b'>' ∷ [])) (entries 0 false false t)
unfolding entries
entries-angles a t h =
    rw (entries-bare 1 a (b'>' ∷ t) h, onto-append a (b'>' ∷ []) (entries 0 false false t)) refl

quoted_steps :
    (name t : Text)
    → entries 0 false false (quoted name ++ t) ≡ onto (quoted name) (entries 0 false false t)
unfolding entries
quoted_steps name t =
    rw
      (
        append_assoc (escaped name) (b'"' ∷ []) t,
        entries-escaped name (b'"' ∷ t),
        entries-quote t,
        onto-append (escaped name) (b'"' ∷ []) (entries 0 false false t),
      )
      refl

all-append : (p : ℕ → Bool) (s t : Text) → all p s ≡ true → all p t ≡ true → all p (s ++ t) ≡ true
all-append p [] t h k = k
all-append p (c ∷ s) t h k = ground (arith, all-append p s t (ground arith) k)

special_or_bare : (c : ℕ) → is_rfc5322_special c ≡ false → bare c ≡ true
unfolding is_rfc5322_special
special_or_bare c h = ground arith

plain-bare : (s : Text) → any is_rfc5322_special s ≡ false → all bare s ≡ true
plain-bare [] h = refl
plain-bare (c ∷ s) h = ground (arith, plain-bare s (ground arith), special_or_bare c (ground arith))

no_special :
    (name : Text)
    → needs_quoting name ≡ false
    → (is_ascii name && not (breaks name)) ≡ true
    → any is_rfc5322_special name ≡ false
unfolding needs_quoting
no_special name h p = ground arith

delimits-bare : (c : ℕ) (w : Bool) → (not w && not (delimits c)) ≡ true → bare c ≡ true
delimits-bare c w h = ground arith

pub all-keep :
    (p q : ℕ → Bool) → ((c : ℕ) → q c ≡ true → p c ≡ true) → (s : Text) → all p (keep q s) ≡ true
all-keep p q f [] = refl
all-keep p q f (c ∷ s) = elim (Bool-cases (q c)) [
  | inl h ↦ rw (h, f c h) (all-keep p q f s)
  | inr h ↦ rw h (all-keep p q f s)
]

pub cleaned-bare : (lib : Library) (address : Text) → all bare (cleaned lib address) ≡ true
cleaned-bare lib address =
    all-keep bare (λ c. not (lib.white c) && not (delimits c)) (λ c. delimits-bare c (lib.white c))
      address

module _ (lib : Library) (alphabet : (bs : List ℕ) → all bare (lib.encode64 bs) ≡ true) where
  encoded-bare :
      (name : Text) → needs_quoting name ≡ false → all bare (encode_header_value lib name) ≡ true
  unfolding needs_quoting encode_header_value
  encoded-bare name h = elim (Bool-cases (is_ascii name && not (breaks name))) [
    | inl p ↦ rw p (plain-bare name (no_special name h p))
    | inr p ↦ rw p (
        all-append bare (lib.encode64 (lib.as_bytes name)) (codes "?=")
          (alphabet (lib.as_bytes name)) refl)
  ]

  pub format_bare :
      (name address : Text)
      → is_empty name ≡ true
      → format_name_and_address lib name address ≡ cleaned lib address
  unfolding format_name_and_address
  format_bare name address h = rw h refl

  pub format_quoted :
      (name address : Text)
      → is_empty name ≡ false
      → needs_quoting name ≡ true
      → format_name_and_address lib name address ≡ quoted name ++ in_angles lib address
  unfolding format_name_and_address
  format_quoted name address h k = rw (h, k) refl

  pub format_encoded :
      (name address : Text)
      → is_empty name ≡ false
      → needs_quoting name ≡ false
      → format_name_and_address lib name address
        ≡ encode_header_value lib name ++ in_angles lib address
  unfolding format_name_and_address
  format_encoded name address h k = rw (h, k) refl

  angles_step :
      (address t : Text)
      → entries 0 false false (in_angles lib address ++ t)
        ≡ onto (in_angles lib address) (entries 0 false false t)
  angles_step address t =
      rw (append_assoc (cleaned lib address) (b'>' ∷ []) t)
        (entries-angles (cleaned lib address) t (cleaned-bare lib address))

  pub entries-format :
      (name address t : Text)
      → entries 0 false false (format_name_and_address lib name address ++ t)
        ≡ onto (format_name_and_address lib name address) (entries 0 false false t)
  entries-format name address t = elim (Bool-cases (is_empty name)) [
    | inl p ↦
        rw (format_bare name address p)
          (entries-bare 0 (cleaned lib address) t (cleaned-bare lib address))
    | inr p ↦ elim (Bool-cases (needs_quoting name)) [
      | inl q ↦
          rw
            (
              format_quoted name address p q,
              append_assoc (quoted name) (in_angles lib address) t,
              quoted_steps name (in_angles lib address ++ t),
              angles_step address t,
              onto-append (quoted name) (in_angles lib address) (entries 0 false false t),
            )
            refl
      | inr q ↦
          rw
            (
              format_encoded name address p q,
              append_assoc (encode_header_value lib name) (in_angles lib address) t,
              entries-bare 0 (encode_header_value lib name) (in_angles lib address ++ t)
                  (encoded-bare name q),
              angles_step address t,
              onto-append (encode_header_value lib name) (in_angles lib address)
                  (entries 0 false false t),
            )
            refl
    ]
  ]
