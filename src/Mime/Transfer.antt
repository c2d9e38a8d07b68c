-- ===== src/Mime/Transfer.antt =====
-- Transfer encodings: crates/bridge/src/mail/rfc2822.rs and parser.rs.
use tutabridge.Prelude.{
  ℕ, zero, suc, ◌-◌, not, ◌&&◌, Option, none, some, List, [], ◌∷◌, ◌==◌, if◌then◌else◌, keep,
}
use tutabridge.Prelude.Text.{Text, codes, contains}
use tutabridge.Wire.{join}
use tutabridge.Mime.Library.{Library}
use tutabridge.Mime.Words.{hex_byte}

-- `chunks`, of a width that is not zero: so many characters more belong to the current one.
unfoldable pub chunks : ℕ → ℕ → Text → List Text
chunks width n [] = []
chunks width n (c ∷ []) = (c ∷ []) ∷ []
chunks width zero (c ∷ d ∷ s) = (c ∷ []) ∷ chunks width (width - 1) (d ∷ s)
chunks width (suc n) (c ∷ d ∷ s) = elim (chunks width n (d ∷ s)) [
  | [] ↦ (c ∷ []) ∷ []
  | t ∷ ts ↦ (c ∷ t) ∷ ts
]

-- `base64_encode_body`: lines of 76 characters.
unfoldable pub base64_encode_body : Library → List ℕ → Text
unfolding join chunks
base64_encode_body lib bytes = join (13 ∷ 10 ∷ []) (chunks 76 75 (lib.encode64 bytes))

abbrev added : Option ℕ → List ℕ → List ℕ
added none bytes = bytes
added (some b) bytes = b ∷ bytes

-- The bytes of `decode_quoted_printable`, so many of them already read.
unfoldable printable_bytes : ℕ → List ℕ → List ℕ
unfolding hex_byte
printable_bytes n [] = []
printable_bytes (suc n) (c ∷ s) = printable_bytes n s
printable_bytes zero (c ∷ []) = c ∷ []
printable_bytes zero (c ∷ d ∷ []) =
    let behind = printable_bytes 1 (d ∷ []) in
    let rest = printable_bytes zero (d ∷ []) in if c == b'=' && d == 10 then behind else c ∷ rest
printable_bytes zero (c ∷ d ∷ e ∷ s) =
    let behind = printable_bytes 2 (d ∷ e ∷ s) in
    let behind_lf = printable_bytes 1 (d ∷ e ∷ s) in
    let rest = printable_bytes zero (d ∷ e ∷ s) in
    if c == b'='
    then if d == 13 && e == 10
      then behind
      else if d == 10
      then behind_lf
      else added (hex_byte d e) behind
    else c ∷ rest

module _ (lib : Library) where
  unfoldable pub decode_quoted_printable : Text → Text
  unfolding printable_bytes
  decode_quoted_printable s = lib.from_utf8_lossy (printable_bytes zero (lib.as_bytes s))

  abbrev pub unspaced : Text → Text
  unspaced s = keep (λ c. not (lib.white c)) s

  abbrev decoded_or : Text → Option (List ℕ) → Text
  decoded_or body none = body
  decoded_or body (some bytes) = lib.from_utf8_lossy bytes

  unfoldable pub decode_transfer : Text → Text → Text
  unfolding decode_quoted_printable contains
  decode_transfer body encoding =
      if contains encoding (codes "base64")
      then decoded_or body (lib.decode64 (unspaced body))
      else if contains encoding (codes "quoted-printable")
      then decode_quoted_printable body
      else body
