-- ===== src/Mime/Parts.antt =====
-- The parts of a multipart body, and the parameters of a header: crates/bridge/src/mail/parser.rs.
use tutabridge.Prelude.{
  ℕ, ◌+◌, Bool, true, false, not, ◌&&◌, ◌||◌, Option, none, some, List, [], ◌∷◌, ◌++◌, ◌==◌,
  if◌then◌else◌,
}
use tutabridge.Prelude.Text.{Text, codes, starts_with, is_empty, len, trim_start}
use tutabridge.Mime.Library.{Library}
use tutabridge.Mime.Strings.{find, drop_bytes, until, lines}

abbrev filled : Text → Option Text
filled [] = none
filled (c ∷ s) = some (c ∷ s)

module _ (lib : Library) where
  -- A value behind `=`: in quotes, or up to white space or a semicolon.
  abbrev value_at : Text → Text
  value_at [] = []
  value_at (c ∷ s) =
      if c == b'"' then until (λ d. d == b'"') s else until (λ d. d == b';' || lib.white d) (c ∷ s)

  abbrev at_needle : Text → Text → Option ℕ → Option Text
  at_needle header needle none = none
  at_needle header needle (some pos) = filled (value_at (drop_bytes (pos + len needle) header))

  -- The position is one in the text in lower case.
  abbrev parameter : Text → Text → Option Text
  parameter header needle = at_needle header needle (find needle (lib.to_lowercase header))

  unfoldable pub extract_boundary : Text → Option Text
  unfolding find drop_bytes until len
  extract_boundary content_type = parameter content_type (codes "boundary=")

  unfoldable pub extract_param : Text → Text → Option Text
  unfolding find drop_bytes until len
  extract_param header key = parameter header (lib.to_lowercase key ++ codes "=")

-- `trim_start_matches("\r\n")`, then `trim_start_matches('\n')`.
unfoldable trim_lines : Text → Text
trim_lines [] = []
trim_lines (c ∷ []) = if c == 10 then [] else c ∷ []
trim_lines (c ∷ d ∷ s) =
    let both = trim_lines s in
    let one = trim_start (λ x. x == 10) (d ∷ s) in
    if c == 13 && d == 10 then both else if c == 10 then one else c ∷ d ∷ s

module _ (boundary : Text) where
  abbrev flushed : Bool → Text → List Text → List Text
  flushed in_part current parts =
      if in_part && not (is_empty current) then trim_lines current ∷ parts else parts

  unfoldable parts_from : Bool → Text → List Text → List Text
  unfolding starts_with trim_lines
  parts_from in_part current [] = []
  parts_from in_part current (line ∷ ls) =
      let next = parts_from true [] ls in
      let more =
        parts_from in_part (if in_part then current ++ (line ++ 10 ∷ []) else current) ls in
      if starts_with line (codes "--" ++ (boundary ++ codes "--"))
      then flushed in_part current []
      else if starts_with line (codes "--" ++ boundary)
      then flushed in_part current next
      else more

unfoldable pub split_mime_parts : Text → Text → List Text
unfolding parts_from
split_mime_parts body boundary = parts_from boundary false [] (lines body)
