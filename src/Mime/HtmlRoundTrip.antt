-- ===== src/Mime/HtmlRoundTrip.antt =====
-- The text of a stored body, crates/bridge/src/mail/rfc2822.rs and crates/bridge/src/tuta.rs.
use tutabridge.Prelude.{
  ℕ, ◌≡◌, refl, ap, ◌∙◌, sym, Bool, false, none, some, [], ◌∷◌, ◌++◌, ◌==◌, any, arith, Bool-cases,
  inl, inr, append_assoc, drop, ==_iff,
}
use tutabridge.Prelude.Text.{Text, codes, starts_with, trim}
use tutabridge.Wire.{replace}
use tutabridge.Mime.Strings.{strip_prefix, to_ascii_lowercase, reverse_onto, drop_last}
use tutabridge.Mime.Ends.{
  to_ascii_lowercase-append, strip_suffix-append, drop_last-append, trim-black,
}
use tutabridge.Mime.Html.{
  html_escape, wrap_plain_as_html, plaintext_to_tuta_html, br, strip_tags, in_text, flat_pre,
  html_to_text, after_tag, text_of,
}
use tutabridge.Mime.Escapes.{flat, escaped, html_escape-flat, decode_entities-flat}
use tutabridge.Mime.Stored.{broken, stored, unix}

-- Every line break of a text as `\n`.
unfoldable pub newlines : Text → Text
unfolding unix replace
newlines s = replace 13 (10 ∷ []) (unix s)

broken-newlines : (s : Text) → flat broken (replace 13 (10 ∷ []) s) ≡ flat broken s
unfolding flat replace
broken-newlines [] = refl
broken-newlines (c ∷ s) = ground (arith, broken-newlines s)

no_13 : (s : Text) → any (λ c. c == 13) (replace 13 (10 ∷ []) s) ≡ false
unfolding replace
no_13 [] = refl
no_13 (c ∷ s) = ground (arith, no_13 s)

no_pre_tag :
    (c : ℕ) (t : Text) → starts_with (to_ascii_lowercase (broken c ++ t)) (codes "<pre>") ≡ false
unfolding starts_with to_ascii_lowercase
no_pre_tag c t = ground arith

no_pre : (s : Text) → flat_pre (flat broken s) ≡ none
unfolding flat flat_pre strip_prefix to_ascii_lowercase starts_with
no_pre [] = refl
no_pre (c ∷ s) = rw (no_pre_tag c (flat broken s), flat_pre) refl

module _ (white : ℕ → Bool) (plain_b : white b'b' ≡ false) (plain_r : white b'r' ≡ false) where
  br_tag : after_tag white (b'b' ∷ b'r' ∷ []) ≡ (10 ∷ [], in_text)
  unfolding after_tag
  br_tag = rw (plain_b, plain_r) refl

  strip_end : strip_tags white in_text [] ≡ []
  unfolding strip_tags
  strip_end = refl

  strip_break : (t : Text) → strip_tags white in_text (br ++ t) ≡ 10 ∷ strip_tags white in_text t
  unfolding strip_tags reverse_onto
  strip_break t = rw br_tag refl

  strip_char :
      (c : ℕ) (t : Text)
      → strip_tags white in_text (escaped c ++ t) ≡ escaped c ++ strip_tags white in_text t
  unfolding strip_tags
  strip_char c t = ground arith

  strip-broken :
      (s : Text)
      → any (λ c. c == 13) s ≡ false
      → strip_tags white in_text (flat broken s) ≡ flat escaped s
  unfolding flat
  strip-broken [] h = strip_end
  strip-broken (c ∷ s) h = elim (Bool-cases (c == 10)) [
    | inl p ↦
        rw ((==_iff c 10).0 p, strip_break (flat broken s), strip-broken s (ground arith)) refl
    | inr p ↦
        let q : (c == 13) ≡ false = ground arith in
        rw (p, q, strip_char c (flat broken s), strip-broken s (ground arith)) refl
  ]

  stored_text : (s : Text) → text_of white (plaintext_to_tuta_html s) ≡ newlines s
  unfolding text_of newlines
  stored_text s =
      rw
        (
          stored s,
          sym (broken-newlines (unix s)),
          no_pre (newlines s),
          strip-broken (newlines s) (no_13 (unix s)),
          decode_entities-flat (newlines s),
          text_of,
        )
        refl

  -- A plain text, stored as HTML and read back, is the text with each line break as `\n`, if its stored
  -- form neither starts nor ends with white space and `b` and `r` are none.
  pub html_to_text-plaintext_to_tuta_html :
      (s : Text)
      → trim white (plaintext_to_tuta_html s) ≡ plaintext_to_tuta_html s
      → html_to_text white (plaintext_to_tuta_html s) ≡ newlines s
  unfolding html_to_text newlines
  html_to_text-plaintext_to_tuta_html s h = ap (text_of white) h ∙ stored_text s

any_tag :
    (c : ℕ) (t : Text)
    → any (λ d. d == b'<') (to_ascii_lowercase (escaped c ++ t))
      ≡ any (λ d. d == b'<') (to_ascii_lowercase t)
unfolding to_ascii_lowercase
any_tag c t = ground arith

no_tag : (s : Text) → any (λ c. c == b'<') (to_ascii_lowercase (flat escaped s)) ≡ false
unfolding flat to_ascii_lowercase
no_tag [] = refl
no_tag (c ∷ s) = rw (any_tag c (flat escaped s)) (no_tag s)

abbrev end_pre : Text
end_pre = codes "</pre>"

pre_found : (x : Text) → flat_pre (codes "<pre>" ++ (x ++ end_pre)) ≡ some (to_ascii_lowercase x)
unfolding flat_pre strip_prefix to_ascii_lowercase starts_with
pre_found x =
    rw (to_ascii_lowercase-append x end_pre) (strip_suffix-append (to_ascii_lowercase x) end_pre)

pre_contents : (x : Text) → drop_last 6 (drop 5 (codes "<pre>" ++ (x ++ end_pre))) ≡ x
pre_contents x = drop_last-append x end_pre

module _ (white : ℕ → Bool) where
  pre_trimmed :
      (x : Text)
      → white b'<' ≡ false
      → white b'>' ≡ false
      → trim white (codes "<pre>" ++ (x ++ end_pre)) ≡ codes "<pre>" ++ (x ++ end_pre)
  pre_trimmed x h k =
      rw (sym (append_assoc x (codes "</pre") (b'>' ∷ [])))
        (trim-black white b'<' b'>' (codes "pre>" ++ (x ++ codes "</pre")) h k)

  pre_text : (s : Text) → text_of white (wrap_plain_as_html s) ≡ s
  unfolding text_of wrap_plain_as_html
  pre_text s =
      rw
        (
          html_escape-flat s,
          pre_found (flat escaped s),
          no_tag s,
          pre_contents (flat escaped s),
          decode_entities-flat s,
          text_of,
        )
        refl

  -- A plain text, shown as a block of its escapes and read back, is the text, byte for byte.
  pub html_to_text-wrap_plain_as_html :
      (s : Text)
      → white b'<' ≡ false
      → white b'>' ≡ false
      → html_to_text white (wrap_plain_as_html s) ≡ s
  unfolding html_to_text wrap_plain_as_html
  html_to_text-wrap_plain_as_html s h k =
      ap (text_of white) (pre_trimmed (html_escape s) h k) ∙ pre_text s
