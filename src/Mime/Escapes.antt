-- ===== src/Mime/Escapes.antt =====
-- The escapes of HTML, written and read back (crates/bridge/src/mail/rfc2822.rs and parser.rs).
use tutabridge.Prelude.{ℕ, zero, ◌≡◌, refl, ap, [], ◌∷◌, ◌++◌, ◌==◌, if◌then◌else◌, arith}
use tutabridge.Prelude.Text.{Text, codes, starts_with}
use tutabridge.Wire.{replace}
use tutabridge.Mime.Strings.{replace_from, replace_text}
use tutabridge.Mime.Html.{decode_entities, html_escape}

-- A text written piece by piece.
unfoldable pub flat : (ℕ → Text) → Text → Text
flat f [] = []
flat f (c ∷ s) = f c ++ flat f s

abbrev pub escaped : ℕ → Text
escaped c =
    if c == b'&'
    then codes "&amp;"
    else if c == b'<'
    then codes "&lt;"
    else if c == b'>'
    then codes "&gt;"
    else c ∷ []

abbrev less_escaped : ℕ → Text
less_escaped c = if c == b'&' then codes "&amp;" else if c == b'>' then codes "&gt;" else c ∷ []

abbrev and_escaped : ℕ → Text
and_escaped c = if c == b'&' then codes "&amp;" else c ∷ []

abbrev pub plain : ℕ → Text
plain c = c ∷ []

flat-plain : (s : Text) → flat plain s ≡ s
unfolding flat
flat-plain [] = refl
flat-plain (c ∷ s) = ap (λ t. c ∷ t) (flat-plain s)

pub html_escape-flat : (s : Text) → html_escape s ≡ flat escaped s
unfolding html_escape flat replace
html_escape-flat [] = refl
html_escape-flat (c ∷ s) = ground (arith, html_escape-flat s)

module _ (old new : Text) (f g : ℕ → Text)
    (step : (c : ℕ) (t : Text)
      → replace_from old new zero (f c ++ t) ≡ g c ++ replace_from old new zero t) where
  replace-flat : (s : Text) → replace_text old new (flat f s) ≡ flat g s
  unfolding replace_text replace_from flat
  replace-flat [] = refl
  replace-flat (c ∷ s) = rw (step c (flat f s), replace-flat s) refl

nbsp :
    (c : ℕ) (t : Text)
    → replace_from (codes "&nbsp;") (b' ' ∷ []) zero (escaped c ++ t)
      ≡ escaped c ++ replace_from (codes "&nbsp;") (b' ' ∷ []) zero t
unfolding replace_from starts_with
nbsp c t = ground arith

lt :
    (c : ℕ) (t : Text)
    → replace_from (codes "&lt;") (b'<' ∷ []) zero (escaped c ++ t)
      ≡ less_escaped c ++ replace_from (codes "&lt;") (b'<' ∷ []) zero t
unfolding replace_from starts_with
lt c t = ground arith

gt :
    (c : ℕ) (t : Text)
    → replace_from (codes "&gt;") (b'>' ∷ []) zero (less_escaped c ++ t)
      ≡ and_escaped c ++ replace_from (codes "&gt;") (b'>' ∷ []) zero t
unfolding replace_from starts_with
gt c t = ground arith

quot :
    (c : ℕ) (t : Text)
    → replace_from (codes "&quot;") (b'"' ∷ []) zero (and_escaped c ++ t)
      ≡ and_escaped c ++ replace_from (codes "&quot;") (b'"' ∷ []) zero t
unfolding replace_from starts_with
quot c t = ground arith

numeric :
    (c : ℕ) (t : Text)
    → replace_from (codes "&#39;") (39 ∷ []) zero (and_escaped c ++ t)
      ≡ and_escaped c ++ replace_from (codes "&#39;") (39 ∷ []) zero t
unfolding replace_from starts_with
numeric c t = ground arith

apos :
    (c : ℕ) (t : Text)
    → replace_from (codes "&apos;") (39 ∷ []) zero (and_escaped c ++ t)
      ≡ and_escaped c ++ replace_from (codes "&apos;") (39 ∷ []) zero t
unfolding replace_from starts_with
apos c t = ground arith

amp :
    (c : ℕ) (t : Text)
    → replace_from (codes "&amp;") (b'&' ∷ []) zero (and_escaped c ++ t)
      ≡ plain c ++ replace_from (codes "&amp;") (b'&' ∷ []) zero t
unfolding replace_from starts_with
amp c t = ground arith

pub decode_entities-flat : (s : Text) → decode_entities (flat escaped s) ≡ s
unfolding decode_entities
decode_entities-flat s =
    rw
      (
        replace-flat (codes "&nbsp;") (b' ' ∷ []) escaped escaped nbsp s,
        replace-flat (codes "&lt;") (b'<' ∷ []) escaped less_escaped lt s,
        replace-flat (codes "&gt;") (b'>' ∷ []) less_escaped and_escaped gt s,
        replace-flat (codes "&quot;") (b'"' ∷ []) and_escaped and_escaped quot s,
        replace-flat (codes "&#39;") (39 ∷ []) and_escaped and_escaped numeric s,
        replace-flat (codes "&apos;") (39 ∷ []) and_escaped and_escaped apos s,
        replace-flat (codes "&amp;") (b'&' ∷ []) and_escaped plain amp s,
        flat-plain s,
      )
      refl

-- The escapes of a text, read back, are the text.
decode_entities-html_escape : (s : Text) → decode_entities (html_escape s) ≡ s
decode_entities-html_escape s = rw (html_escape-flat s) (decode_entities-flat s)
