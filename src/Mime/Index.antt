-- ===== src/Mime/Index.antt =====
-- `extract_body_text`, crates/bridge/src/mail/rfc2822.rs: the text of a mail for the full-text index.
use tutabridge.Prelude.{ℕ, Option, none, some, List, []}
use tutabridge.Prelude.Text.{Text, codes}
use tutabridge.Mime.Library.{Library}
use tutabridge.Mime.Strings.{find, drop_bytes, split_at_text}
use tutabridge.Mime.Headers.{crlf_crlf}
use tutabridge.Mime.Html.{strip_html}
use tutabridge.Mime.Transfer.{unspaced}

abbrev or_else : Option ℕ → Option ℕ → Option ℕ
or_else none b = b
or_else (some a) b = some a

-- Up to the next delimiter of a part.
abbrev up_to_delimiter : Text → Option (Text × Text) → Text
up_to_delimiter rest none = rest
up_to_delimiter rest (some parts) = parts.0

module _ (lib : Library) where
  abbrev stripped : Text → Option (List ℕ) → Text
  stripped raw none = strip_html lib.white raw
  stripped raw (some bytes) = strip_html lib.white (lib.from_utf8_lossy bytes)

  abbrev body_at : Option (Text × Text) → Text
  body_at none = []
  body_at (some parts) =
      let raw = up_to_delimiter parts.1 (split_at_text (codes "\r\n--") parts.1) in
      stripped raw (lib.decode64 (unspaced lib raw))

  -- The position is one in the text in lower case.
  abbrev part_at : Text → Option ℕ → Text
  part_at rfc none = []
  part_at rfc (some start) = body_at (split_at_text crlf_crlf (drop_bytes start rfc))

  unfoldable extract_body_text : Text → Text
  unfolding find drop_bytes split_at_text strip_html
  extract_body_text rfc =
      let lower = lib.to_lowercase rfc in
      part_at rfc (or_else (find (codes "text/html") lower) (find (codes "text/plain") lower))
