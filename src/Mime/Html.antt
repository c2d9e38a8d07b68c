-- ===== src/Mime/Html.antt =====
-- Bodies as text and as HTML: crates/bridge/src/mail/rfc2822.rs and parser.rs, and the form in which a
-- plain text is stored (crates/bridge/src/tuta.rs). The table of white space is a parameter.
use tutabridge.Prelude.{
  ℕ, Bool, not, ◌&&◌, ◌||◌, Option, none, some, List, [], ◌∷◌, ◌++◌, ◌==◌, any, if◌then◌else◌, take,
  drop,
}
use tutabridge.Prelude.Text.{Text, codes, same_text, starts_with, trim, trim_start, words}
use tutabridge.Wire.{replace, join}
use tutabridge.Mime.Strings.{
  replace_text, reverse, strip_prefix, strip_suffix, to_ascii_lowercase, ascii_lower, drop_last,
  until,
}

unfoldable pub decode_entities : Text → Text
unfolding replace_text
decode_entities s =
    let a = replace_text (codes "&nbsp;") (b' ' ∷ []) s in
    let b = replace_text (codes "&lt;") (b'<' ∷ []) a in
    let c = replace_text (codes "&gt;") (b'>' ∷ []) b in
    let d = replace_text (codes "&quot;") (b'"' ∷ []) c in
    let e = replace_text (codes "&#39;") (39 ∷ []) d in
    let f = replace_text (codes "&apos;") (39 ∷ []) e in replace_text (codes "&amp;") (b'&' ∷ []) f

unfoldable pub html_escape : Text → Text
unfolding replace
html_escape s =
    replace b'>' (codes "&gt;") (replace b'<' (codes "&lt;") (replace b'&' (codes "&amp;") s))

unfoldable pub wrap_plain_as_html : Text → Text
unfolding html_escape
wrap_plain_as_html decoded = codes "<pre>" ++ (html_escape decoded ++ codes "</pre>")

abbrev pub br : Text
br = codes "<br>"

unfoldable pub plaintext_to_tuta_html : Text → Text
unfolding html_escape replace_text replace
plaintext_to_tuta_html s =
    replace 13 br (replace 10 br (replace_text (13 ∷ 10 ∷ []) br (html_escape s)))

-- Where the reader stands: in text, in a tag, in the contents of a block that is skipped, or in the
-- tag that closes it. What was read is kept backwards.
pub data Place : Type 0 where
  in_text : Place
  in_tag : Text → Place
  skipping : Text → Text → Place
  closing : Place

abbrev among : Text → List Text → Bool
among name names = any (λ n. same_text name n) names

abbrev is_skipped : Text → Bool
is_skipped name = among name (codes "script" ∷ codes "style" ∷ [])

abbrev block_names : List Text
block_names =
    codes "p"
    ∷ codes "div"
    ∷ codes "tr"
    ∷ codes "li"
    ∷ codes "pre"
    ∷ codes "blockquote"
    ∷ codes "h1"
    ∷ codes "h2"
    ∷ codes "h3"
    ∷ codes "h4"
    ∷ codes "h5"
    ∷ codes "h6"
    ∷ []

abbrev until_end_tag : Option Text → Option Text
until_end_tag none = none
until_end_tag (some rest) = strip_suffix (codes "</pre>") rest

-- The contents of a single flat block, in lower case.
unfoldable pub flat_pre : Text → Option Text
unfolding strip_prefix strip_suffix to_ascii_lowercase
flat_pre trimmed = until_end_tag (strip_prefix (codes "<pre>") (to_ascii_lowercase trimmed))

abbrev fast_path : Text → Text → Option Text → Text
fast_path general fast none = general
fast_path general fast (some inner) = if any (λ c. c == b'<') inner then general else fast

module _ (white : ℕ → Bool) where
  abbrev tag_name : Text → Text
  tag_name tag = until (λ c. white c || c == b'/') (trim_start (λ c. c == b'/') tag)

  unfoldable breaks_line : Text → Bool
  unfolding trim_start until same_text starts_with
  breaks_line tag =
      same_text (tag_name tag) (codes "br")
      || (starts_with tag (b'/' ∷ []) && among (tag_name tag) block_names)

  unfoldable opens_skipped : Text → Bool
  unfolding trim_start until same_text starts_with
  opens_skipped tag = not (starts_with tag (b'/' ∷ [])) && is_skipped (tag_name tag)

  -- What a whole tag, in the order of the text, writes and where it leads.
  unfoldable pub after_tag : Text → Text × Place
  unfolding breaks_line opens_skipped
  after_tag tag =
      if opens_skipped tag
      then ([], skipping (reverse (codes "</" ++ tag_name tag)) [])
      else if breaks_line tag
      then (10 ∷ [], in_text)
      else ([], in_text)

  -- The general path of `html_to_text`.
  unfoldable pub strip_tags : Place → Text → Text
  unfolding after_tag
  strip_tags (in_tag tag) [] = (after_tag (reverse tag)).0
  strip_tags _ [] = []
  strip_tags in_text (c ∷ s) =
      let tag = strip_tags (in_tag []) s in
      let rest = strip_tags in_text s in if c == b'<' then tag else c ∷ rest
  strip_tags (in_tag tag) (c ∷ s) =
      let next = after_tag (reverse tag) in
      let done = strip_tags next.1 s in
      let more = strip_tags (in_tag (ascii_lower c ∷ tag)) s in
      if c == b'>' then next.0 ++ done else more
  strip_tags (skipping close window) (c ∷ s) =
      let done = strip_tags closing s in
      let more = strip_tags (skipping close (ascii_lower c ∷ window)) s in
      if starts_with (ascii_lower c ∷ window) close then done else more
  strip_tags closing (c ∷ s) =
      let done = strip_tags in_text s in
      let more = strip_tags closing s in if c == b'>' then done else more

  -- What `html_to_text` makes of the trimmed body.
  unfoldable pub text_of : Text → Text
  unfolding flat_pre strip_tags decode_entities
  text_of trimmed =
      fast_path (decode_entities (strip_tags in_text trimmed))
        (decode_entities (drop_last 6 (drop 5 trimmed))) (flat_pre trimmed)

  unfoldable pub html_to_text : Text → Text
  unfolding text_of
  html_to_text html = text_of (trim white html)

  -- `strip_html` looks at six characters for the name of a tag, before it reads the tag.
  abbrev seen_name : Text → Text
  seen_name s = to_ascii_lowercase (until (λ c. c == b'>' || white c) (take 6 s))

  -- A tag that is passed over, with what follows its end.
  unfoldable strip_html_from : Place → Text → Text
  unfolding until to_ascii_lowercase trim_start same_text
  strip_html_from in_text [] = []
  strip_html_from _ [] = b' ' ∷ []
  strip_html_from in_text (c ∷ s) =
      let tag = seen_name s in
      let close =
        if is_skipped (trim_start (λ c. c == b'/') tag) && not (starts_with tag (b'/' ∷ []))
        then reverse (codes "</" ++ tag)
        else [] in
      let inside = strip_html_from (in_tag close) s in
      let rest = strip_html_from in_text s in if c == b'<' then inside else c ∷ rest
  strip_html_from (in_tag close) (c ∷ s) =
      let skipped = strip_html_from (skipping close []) s in
      let done = strip_html_from in_text s in
      let more = strip_html_from (in_tag close) s in
      if c == b'>' then (elim close [ [] ↦ b' ' ∷ done | _ ↦ skipped ]) else more
  strip_html_from (skipping close window) (c ∷ s) =
      let done = strip_html_from closing s in
      let more = strip_html_from (skipping close (ascii_lower c ∷ window)) s in
      if starts_with (ascii_lower c ∷ window) close then done else more
  strip_html_from closing (c ∷ s) =
      let done = strip_html_from in_text s in
      let more = strip_html_from closing s in if c == b'>' then b' ' ∷ done else more

  unfoldable pub strip_html : Text → Text
  unfolding strip_html_from decode_entities join
  strip_html html = join (b' ' ∷ []) (words white (decode_entities (strip_html_from in_text html)))
