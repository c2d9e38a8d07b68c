-- ===== src/Mime/Sent.antt =====
-- What comes back of what was sent: the body of a draft and the id of a mail
-- (crates/bridge/src/tuta.rs, crates/bridge/src/mail/).
use tutabridge.Prelude.{
  ◌≡◌, refl, Bool, true, false, ◌||◌, some, List, [], ◌∷◌, ◌++◌, any, ◌==◌, arith,
}
use tutabridge.Prelude.Text.{Text, codes, split_once, is_empty, trim, contains}
use tutabridge.Mime.Library.{Library}
use tutabridge.Mime.Ends.{strip_suffix-append}
use tutabridge.Mime.Html.{plaintext_to_tuta_html, html_to_text}
use tutabridge.Mime.HtmlRoundTrip.{newlines, html_to_text-plaintext_to_tuta_html}
use tutabridge.Mime.Headers.{split_headers_body, parse_headers, get_header}
use tutabridge.Mime.Strings.{or_empty}
use tutabridge.Mime.Transfer.{decode_transfer}
use tutabridge.Mime.Parser.{Attachment, parse_rfc2822, single_body}
use tutabridge.Mime.Drafts.{parse_bridge_local_id, local_domain, build_draft_data}

split_once-append :
    (s t : Text) → any (λ c. c == b'.') s ≡ false → split_once b'.' (s ++ b'.' ∷ t) ≡ some (s, t)
unfolding split_once
split_once-append [] t h = refl
split_once-append (c ∷ s) t h = rw (split_once-append s t (ground arith)) (ground arith)

-- The id that is written for a mail names the mail, if the id of its list has no dot and neither id is
-- empty.
parse_bridge_local_id_lem :
    (list element : Text)
    → any (λ c. c == b'.') list ≡ false
    → is_empty list ≡ false
    → is_empty element ≡ false
    → parse_bridge_local_id ((list ++ b'.' ∷ element) ++ local_domain) ≡ some (list, element)
unfolding parse_bridge_local_id
parse_bridge_local_id_lem list element h k l =
    rw
      (
        strip_suffix-append (list ++ b'.' ∷ element) local_domain,
        split_once-append list element h,
        k,
        l,
      )
      refl

module _ (lib : Library) where
  abbrev header : Text → Text → Text
  header raw name = or_empty (get_header (parse_headers lib (split_headers_body raw).0) name)

  -- The body of a message, decoded.
  abbrev pub body_sent : Text → Text
  body_sent raw =
      decode_transfer lib (split_headers_body raw).1
        (lib.to_lowercase (header raw (codes "content-transfer-encoding")))

  or_true : (b : Bool) → (b || true) ≡ true
  or_true true = refl
  or_true false = refl

  single_body-text :
      (body content_type encoding : Text)
      → contains content_type (codes "text/plain") ≡ true
      → (single_body lib body content_type encoding).text ≡ some (decode_transfer lib body encoding)
  unfolding single_body
  single_body-text body content_type encoding p = rw (p, or_true (is_empty content_type)) refl

  parsed_text :
      (raw : Text)
      → contains (lib.to_lowercase (header raw (codes "content-type"))) (codes "text/plain") ≡ true
      → contains (lib.to_lowercase (header raw (codes "content-type"))) (codes "multipart/") ≡ false
      → ((parse_rfc2822 lib raw).body_text ≡ some (body_sent raw))
        × ((parse_rfc2822 lib raw).is_plaintext ≡ true)
  unfolding parse_rfc2822
  parsed_text raw p m =
      let e : (single_body lib (split_headers_body raw).1
            (lib.to_lowercase (header raw (codes "content-type")))
            (lib.to_lowercase (header raw (codes "content-transfer-encoding")))).text
          ≡ some (body_sent raw) =
        single_body-text (split_headers_body raw).1
          (lib.to_lowercase (header raw (codes "content-type")))
          (lib.to_lowercase (header raw (codes "content-transfer-encoding"))) p in
      (rw m e, rw (m, e) refl)

  -- A message whose header says plain text and not multipart becomes a draft whose body, read back, is
  -- the body that was sent, decoded and with each line break as `\n`, if the stored form of that
  -- neither starts nor ends with white space and `b` and `r` are none.
  pub html_to_text-build_draft_data :
      (raw sender : Text) (files : List Attachment)
      → lib.white b'b' ≡ false
      → lib.white b'r' ≡ false
      → contains (lib.to_lowercase (header raw (codes "content-type"))) (codes "text/plain") ≡ true
      → contains (lib.to_lowercase (header raw (codes "content-type"))) (codes "multipart/") ≡ false
      → trim lib.white (plaintext_to_tuta_html (body_sent raw))
        ≡ plaintext_to_tuta_html (body_sent raw)
      → html_to_text lib.white (build_draft_data (parse_rfc2822 lib raw) sender files).body_text
        ≡ newlines (body_sent raw)
  unfolding build_draft_data
  html_to_text-build_draft_data raw sender files b r p m t =
      rw ((parsed_text raw p m).0, (parsed_text raw p m).1)
        (html_to_text-plaintext_to_tuta_html lib.white b r (body_sent raw) t)
