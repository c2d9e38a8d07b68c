-- ===== src/Mime/Stored.antt =====
-- The form in which a plain text is stored (crates/bridge/src/tuta.rs), piece by piece.
use tutabridge.Prelude.{
  ℕ, zero, ◌≡◌, refl, false, [], ◌∷◌, ◌++◌, ◌==◌, ◌⊎◌, if◌then◌else◌, arith, Bool-cases, inl, inr,
  append_assoc, ==_iff,
}
use tutabridge.Prelude.Text.{Text, starts_with}
use tutabridge.Wire.{replace}
use tutabridge.Mime.Strings.{replace_from, replace_text}
use tutabridge.Mime.Html.{plaintext_to_tuta_html, br}
use tutabridge.Mime.Escapes.{flat, escaped, html_escape-flat}

-- `flat escaped`, with the line breaks as tags.
abbrev pub broken : ℕ → Text
broken c = if c == 10 then br else if c == 13 then br else escaped c

abbrev pub tagged : ℕ → Text
tagged c = if c == 10 then br else if c == 13 then br else c ∷ []

tagged-replace : (s : Text) → replace 13 br (replace 10 br s) ≡ flat tagged s
unfolding replace flat
tagged-replace [] = refl
tagged-replace (c ∷ s) = ground (arith, tagged-replace s)

tagged-append : (s t : Text) → flat tagged (s ++ t) ≡ flat tagged s ++ flat tagged t
unfolding flat
tagged-append [] t = refl
tagged-append (c ∷ s) t =
    rw (tagged-append s t, append_assoc (tagged c) (flat tagged s) (flat tagged t)) refl

tagged-escaped : (c : ℕ) → flat tagged (escaped c) ≡ broken c
unfolding flat
tagged-escaped c = ground arith

abbrev pub crlf : Text
crlf = 13 ∷ 10 ∷ []

-- `\r\n` as `\n`.
unfoldable pub unix : Text → Text
unfolding replace_text
unix s = replace_text crlf (10 ∷ []) s

no_return :
    (c : ℕ) (t : Text)
    → (c == 13) ≡ false
    → replace_from crlf br zero (escaped c ++ t) ≡ escaped c ++ replace_from crlf br zero t
unfolding replace_from starts_with
no_return c t h = ground arith

lone_return :
    (d : ℕ) (t : Text)
    → (d == 10) ≡ false
    → replace_from crlf br zero (13 ∷ (escaped d ++ t))
      ≡ 13 ∷ replace_from crlf br zero (escaped d ++ t)
unfolding replace_from starts_with
lone_return d t h = ground arith

kept_char :
    (c d : ℕ) (t : Text)
    → ((c == 13) ≡ false) ⊎ ((d == 10) ≡ false)
    → replace_from crlf (10 ∷ []) zero (c ∷ d ∷ t) ≡ c ∷ replace_from crlf (10 ∷ []) zero (d ∷ t)
unfolding replace_from starts_with
kept_char c d t h = ground arith

last_char :
    (c : ℕ)
    → flat tagged (replace_from crlf br zero (escaped c ++ []))
      ≡ flat broken (replace_from crlf (10 ∷ []) zero (c ∷ []))
unfolding flat replace_from starts_with
last_char c = ground arith

crlf_lines :
    (s : Text)
    → flat tagged (replace_from crlf br zero (flat escaped s))
      ≡ flat broken (replace_from crlf (10 ∷ []) zero s)
unfolding flat replace_from
crlf_lines [] = refl
crlf_lines (c ∷ []) = last_char c
crlf_lines (c ∷ d ∷ s) = elim (Bool-cases (c == 13)) [
  | inr p ↦
      rw
        (
          no_return c (escaped d ++ flat escaped s) p,
          kept_char c d s (inl p),
          tagged-append (escaped c) (replace_from crlf br zero (escaped d ++ flat escaped s)),
          tagged-escaped c,
          crlf_lines (d ∷ s),
        )
        refl
  | inl p ↦ elim (Bool-cases (d == 10)) [
    | inl q ↦
        rw
          (
            (==_iff c 13).0 p,
            (==_iff d 10).0 q,
            tagged-append br (replace_from crlf br zero (flat escaped s)),
            crlf_lines s,
          )
          refl
    | inr q ↦
        rw
          (
            (==_iff c 13).0 p,
            lone_return d (flat escaped s) q,
            kept_char 13 d s (inr q),
            crlf_lines (d ∷ s),
          )
          refl
  ]
]

pub stored : (s : Text) → plaintext_to_tuta_html s ≡ flat broken (unix s)
unfolding plaintext_to_tuta_html unix replace_text
stored s =
    rw
      (
        html_escape-flat s,
        tagged-replace (replace_from crlf br zero (flat escaped s)),
        crlf_lines s,
      )
      refl
