-- ===== src/Wire/Reading.antt =====
-- What a client reads of the strings that the server writes (crates/bridge/src/imap/session.rs): a
-- quoted string or a literal of RFC 3501, 4.3.
use tutabridge.Prelude.{
  ℕ, zero, suc, ◌+◌, ◌-◌, ◌*◌, ◌/◌, ◌%◌, ◌≤◌, arith, ◌∙◌, true, false, ◌&&◌, Option, none, some, [],
  ◌∷◌, ◌++◌, append_assoc, leb, ltb, ◌==◌, ==_iff, if◌then◌else◌, any, ◌≡◌, refl, Bool-cases, inl,
  inr,
}
use tutabridge.Prelude.Text.{Text, is_empty, is_digit, len, len_utf8}
use tutabridge.Wire.Strings.{decimal_from, decimal, replace, wants_literal, imap_string}

abbrev with_char : ℕ → Option (Text × Text) → Option (Text × Text)
with_char c none = none
with_char c (some (s, rest)) = some (c ∷ s, rest)

-- Behind the opening quote.
unfoldable read_quoted : Text → Option (Text × Text)
read_quoted [] = none
read_quoted (c ∷ []) = if c == b'"' then some ([], []) else none
read_quoted (c ∷ d ∷ s) =
    let escaped = with_char d (read_quoted s) in
    let plain = with_char c (read_quoted (d ∷ s)) in
    if c == b'"' then some ([], d ∷ s) else if c == 92 then escaped else plain

-- The octets of a literal: whole characters only.
unfoldable take_bytes : ℕ → Text → Option (Text × Text)
take_bytes n [] = if n == 0 then some ([], []) else none
take_bytes n (c ∷ s) =
    let more = take_bytes (n - len_utf8 c) s in
    if n == 0 then some ([], c ∷ s) else if leb (len_utf8 c) n then with_char c more else none

unfoldable behind_break : ℕ → Text → Option (Text × Text)
unfolding take_bytes
behind_break n [] = none
behind_break n (a ∷ []) = none
behind_break n (a ∷ b ∷ s) = if a == 13 && b == 10 then take_bytes n s else none

unfoldable read_literal : ℕ → Text → Option (Text × Text)
unfolding behind_break
read_literal n [] = none
read_literal n (c ∷ s) =
    let more = read_literal (n * 10 + (c - b'0')) s in
    if is_digit c then more else if c == b'}' then behind_break n s else none

unfoldable pub read_string : Text → Option (Text × Text)
unfolding read_quoted read_literal
read_string [] = none
read_string (c ∷ s) =
    if c == b'"' then read_quoted s else if c == b'{' then read_literal 0 s else none

abbrev pub escaped : Text → Text
escaped s = replace b'"' (92 ∷ b'"' ∷ []) (replace 92 (92 ∷ 92 ∷ []) s)

read_quoted-plain :
    (c : ℕ) (s : Text)
    → (c == b'"') ≡ false
    → (c == 92) ≡ false
    → is_empty s ≡ false
    → read_quoted (c ∷ s) ≡ with_char c (read_quoted s)
unfolding read_quoted
read_quoted-plain c [] e f h = ground (arith, h)
read_quoted-plain c (d ∷ s) e f h = ground (arith, e, f)

some_left : (s rest : Text) → is_empty (s ++ b'"' ∷ rest) ≡ false
some_left [] rest = refl
some_left (c ∷ s) rest = refl

read_quoted-escaped : (s rest : Text) → read_quoted (escaped s ++ b'"' ∷ rest) ≡ some (s, rest)
unfolding replace read_quoted
read_quoted-escaped [] [] = refl
read_quoted-escaped [] (r ∷ rest) = refl
read_quoted-escaped (c ∷ s) rest = elim (Bool-cases (c == b'"')) [
  | inl q ↦ rw ((==_iff c b'"').0 q) (rw (read_quoted-escaped s rest) refl)
  | inr q ↦ elim (Bool-cases (c == 92)) [
    | inl b ↦ rw ((==_iff c 92).0 b) (rw (read_quoted-escaped s rest) refl)
    | inr b ↦
        rw (b, q)
          (read_quoted-plain c (escaped s ++ b'"' ∷ rest) q b (some_left (escaped s) rest)
            ∙ rw (read_quoted-escaped s rest) refl)
  ]
]

take_bytes-len : (s rest : Text) → take_bytes (len s) (s ++ rest) ≡ some (s, rest)
unfolding take_bytes len
take_bytes-len [] [] = refl
take_bytes-len [] (r ∷ rest) = refl
take_bytes-len (c ∷ s) rest =
    let left : (len_utf8 c + len s) - len_utf8 c ≡ len s = omega arith in
    ground (arith, take_bytes-len s rest, left)

-- A last digit.
read_literal-digit :
    (n : ℕ) (rest : Text) → read_literal (n / 10) ((b'0' + n % 10) ∷ rest) ≡ read_literal n rest
unfolding read_literal
read_literal-digit n rest =
    let digit : is_digit (b'0' + n % 10) ≡ true = ground arith in
    let same : n / 10 * 10 + ((b'0' + n % 10) - b'0') ≡ n = omega arith in rw (digit, same) refl

read_literal-decimal_from :
    (fuel n : ℕ) (rest : Text)
    → n ≤ fuel
    → read_literal 0 (decimal_from fuel n ++ rest) ≡ read_literal n rest
unfolding read_literal decimal_from
read_literal-decimal_from zero n rest h = ground (arith, h)
read_literal-decimal_from (suc fuel) n rest h = elim (Bool-cases (ltb n 10)) [
  | inl e ↦ ground (arith, e)
  | inr e ↦ rw e (
      rw (append_assoc (decimal_from fuel (n / 10)) ((b'0' + n % 10) ∷ []) rest) (
        read_literal-decimal_from fuel (n / 10) ((b'0' + n % 10) ∷ rest) (ground (arith, h, e))
        ∙ read_literal-digit n rest))
]

read_literal-decimal :
    (n : ℕ) (s : Text) → read_literal 0 (decimal n ++ b'}' ∷ 13 ∷ 10 ∷ s) ≡ take_bytes n s
unfolding decimal
read_literal-decimal n s =
    read_literal-decimal_from n n (b'}' ∷ 13 ∷ 10 ∷ s) (omega arith)
    ∙ unfold read_literal behind_break in refl

literal_read :
    (s rest : Text)
    → read_literal 0 ((decimal (len s) ++ b'}' ∷ 13 ∷ 10 ∷ s) ++ rest) ≡ some (s, rest)
literal_read s rest =
    rw (append_assoc (decimal (len s)) (b'}' ∷ 13 ∷ 10 ∷ s) rest)
      (read_literal-decimal (len s) (s ++ rest) ∙ take_bytes-len s rest)

read_quoted-written :
    (s rest : Text) → read_quoted ((escaped s ++ b'"' ∷ []) ++ rest) ≡ some (s, rest)
read_quoted-written s rest =
    rw (append_assoc (escaped s) (b'"' ∷ []) rest) (read_quoted-escaped s rest)

-- Whatever a text holds, quotes, backslashes, line breaks or characters outside of ASCII, a client
-- that reads the string which is written for it gets the text back, and is left with what follows
-- the string.
pub read_string-imap_string : (s rest : Text) → read_string (imap_string s ++ rest) ≡ some (s, rest)
unfolding read_string imap_string
read_string-imap_string [] rest = read_quoted-written [] rest
read_string-imap_string (c ∷ s) rest = elim (Bool-cases (any wants_literal (c ∷ s))) [
  | inl e ↦ rw e (literal_read (c ∷ s) rest)
  | inr e ↦ rw e (read_quoted-written (c ∷ s) rest)
]
