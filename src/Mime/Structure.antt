-- ===== src/Mime/Structure.antt =====
-- BODYSTRUCTURE, crates/bridge/src/mail/bodystructure.rs. Parts nest at most as deep as the fuel says;
-- the length of the message is given.
use tutabridge.Prelude.{
  ℕ, zero, suc, ◌&&◌, ◌||◌, Option, none, some, List, [], ◌∷◌, ◌++◌, map, keep, ◌==◌, leb, length,
  drop, if◌then◌else◌,
}
use tutabridge.Prelude.Text.{
  Text, codes, same_text, starts_with, is_empty, len, split, split_once, trim,
}
use tutabridge.Wire.{decimal, join}
use tutabridge.Mime.Library.{Library}
use tutabridge.Mime.Strings.{ends_with, drop_last, to_ascii_lowercase, until, or_empty}
use tutabridge.Mime.Headers.{split_headers_body, parse_headers, get_header}
use tutabridge.Mime.Parts.{extract_boundary, split_mime_parts}

abbrev escape : ℕ → Text
escape c = if c == 92 || c == b'"' then 92 ∷ c ∷ [] else c ∷ []

abbrev escaped : Text → Text
escaped [] = []
escaped (c ∷ s) = escape c ++ escaped s

unfoldable pub quoted : Text → Text
quoted s = b'"' ∷ (escaped s ++ b'"' ∷ [])

unfoldable count_lines : Text → ℕ
count_lines body = length (keep (λ c. c == 10) body)

abbrev or_default : Text → Option Text → Text
or_default d none = d
or_default d (some t) = t

abbrev later : List Text → List Text
later [] = []
later (t ∷ ts) = ts

module _ (lib : Library) where
  abbrev tidy : Text → Text
  tidy s = trim lib.white s

  unfoldable pub unquote : Text → Text
  unfolding starts_with ends_with len
  unquote s =
      if starts_with (tidy s) (b'"' ∷ [])
        && (ends_with (tidy s) (b'"' ∷ []) && leb 2 (len (tidy s)))
      then drop_last 1 (drop 1 (tidy s))
      else tidy s

  abbrev first_part : Text → Text
  first_part s = tidy (until (λ c. c == b';') s)

  abbrev plain_type : Text → Option (Text × Text) → Text × Text
  plain_type head none = (head, codes "plain")
  plain_type head (some parts) = (tidy parts.0, tidy parts.1)

  unfoldable parse_type_subtype : Text → Text × Text
  unfolding until split_once
  parse_type_subtype content_type =
      plain_type (first_part content_type) (split_once b'/' (first_part content_type))

  abbrev second_of : Option (Text × Text) → Option Text
  second_of none = none
  second_of (some parts) = some (tidy parts.1)

  unfoldable subtype_of : Text → Option Text
  unfolding until split_once
  subtype_of content_type = second_of (split_once b'/' (first_part content_type))

  abbrev pair_of : Option (Text × Text) → List (Text × Text)
  pair_of none = []
  pair_of (some parts) =
      let key = tidy parts.0 in
      let value = unquote (tidy parts.1) in
      if is_empty key || is_empty value then [] else (key, value) ∷ []

  -- The parameters behind the first semicolon.
  unfoldable pairs_of : List Text → List (Text × Text)
  unfolding unquote split_once
  pairs_of [] = []
  pairs_of (raw ∷ raws) = pair_of (split_once b'=' (tidy raw)) ++ pairs_of raws

  abbrev written : List (Text × Text) → Text
  written [] = codes "NIL"
  written (p ∷ ps) =
      b'('
      ∷ (join (b' ' ∷ []) (
            map {A = Text × Text} (λ m. quoted (lib.to_uppercase m.0) ++ (b' ' ∷ quoted m.1))
              (p ∷ ps))
          ++ b')' ∷ [])

  unfoldable build_params : Text → Text
  unfolding pairs_of quoted join
  build_params content_type = written (pairs_of (later (split b';' content_type)))

  abbrev disposed : Text → Option Text
  disposed cd =
      if is_empty (first_part cd)
      then none
      else some (
          b'('
          ∷ (quoted (lib.to_uppercase (first_part cd))
              ++ (b' ' ∷ (written (pairs_of (later (split b';' cd))) ++ b')' ∷ []))))

  abbrev and_then : Option Text → (Text → Option Text) → Option Text
  and_then none f = none
  and_then (some t) f = f t

  unfoldable build_disposition : List (Text × Text) → Option Text
  unfolding pairs_of quoted join until get_header
  build_disposition headers = and_then (get_header headers (codes "content-disposition")) disposed

  abbrev extension : Option Text → Text
  extension none = []
  extension (some d) = codes " NIL " ++ d

  unfoldable single_part_structure : Text → Text → Text → List (Text × Text) → Text
  unfolding parse_type_subtype build_params build_disposition count_lines decimal quoted same_text
      to_ascii_lowercase len
  single_part_structure content_type encoding body headers =
      let kind = parse_type_subtype content_type in
      let lines =
        if same_text (to_ascii_lowercase kind.0) (codes "text")
        then b' ' ∷ decimal (count_lines body)
        else [] in
      b'('
      ∷ (quoted (lib.to_uppercase kind.0)
          ++ (b' '
              ∷ (quoted (lib.to_uppercase kind.1)
                  ++ (b' '
                      ∷ (build_params content_type
                          ++ (codes " NIL NIL "
                              ++ (quoted (lib.to_uppercase encoding)
                                  ++ (b' '
                                      ∷ (decimal (len body)
                                          ++ (lines
                                              ++ (extension (build_disposition headers)
                                                  ++ b')' ∷ [])))))))))))

  abbrev unbounded : Text → Text
  unbounded body =
      codes "(\"TEXT\" \"HTML\" (\"CHARSET\" \"UTF-8\") NIL NIL \"7BIT\" "
      ++ (decimal (len body) ++ codes " 0)")

  abbrev concat : (Text → Text) → List Text → Text
  concat f [] = []
  concat f (t ∷ ts) = f t ++ concat f ts

  unfoldable multipart_structure : (Text → Text) → Text → Text → Text
  unfolding extract_boundary subtype_of split_mime_parts quoted decimal len
  multipart_structure part_structure content_type body =
      let boundary = or_empty (extract_boundary lib content_type) in
      let subtype = or_default (codes "mixed") (subtype_of content_type) in
      if is_empty boundary
      then unbounded body
      else b'('
        ∷ (concat part_structure (split_mime_parts body boundary)
            ++ (b' '
                ∷ (quoted (lib.to_uppercase subtype)
                    ++ (codes " (\"BOUNDARY\" " ++ (quoted boundary ++ codes "))")))))

  unfoldable structure_of : ℕ → Text → Text → Text
  unfolding split_headers_body parse_headers get_header multipart_structure single_part_structure
      starts_with
  structure_of zero default message = []
  structure_of (suc fuel) default message =
      let headers = parse_headers lib (split_headers_body message).0 in
      let body = (split_headers_body message).1 in
      let content_type = or_default default (get_header headers (codes "content-type")) in
      let encoding =
        or_default (codes "7bit") (get_header headers (codes "content-transfer-encoding")) in
      let parts = multipart_structure (structure_of fuel (codes "text/plain")) content_type body in
      if starts_with (lib.to_lowercase content_type) (codes "multipart/")
      then parts
      else single_part_structure content_type encoding body headers

  unfoldable pub compute_bodystructure : Text → Text
  unfolding structure_of
  compute_bodystructure rfc2822 =
      structure_of (suc (length rfc2822)) (codes "text/html; charset=UTF-8") rfc2822
