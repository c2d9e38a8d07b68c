-- ===== src/Smtp/Lines.antt =====
-- `read_line_capped` and `finish_line` (crates/bridge/src/smtp/mod.rs). The reader is the list of the
-- chunks that `fill_buf` yields, none of them empty; behind the last one comes the end of the stream.
use tutabridge.Prelude.{
  ℕ, Option, none, some, List, [], ◌∷◌, ◌++◌, ltb, ◌==◌, if◌then◌else◌, length,
}

-- The text of a line is that of its bytes.
pub data LineOutcome : Type 0 where
  line : List ℕ → LineOutcome
  eof too_long : LineOutcome

unfoldable pub finish_line : List ℕ → ℕ → LineOutcome
finish_line raw max_bytes = if ltb max_bytes (length raw) then too_long else line raw

-- The bytes up to a line feed and with it, and those behind it.
abbrev pub onto : ℕ → Option (List ℕ × List ℕ) → Option (List ℕ × List ℕ)
onto b none = none
onto b (some (head, rest)) = some (b ∷ head, rest)

unfoldable pub cut : List ℕ → Option (List ℕ × List ℕ)
cut [] = none
cut (b ∷ bs) = let later = cut bs in if b == 10 then some (b ∷ [], bs) else onto b later

abbrev pub at_end : List ℕ → ℕ → LineOutcome
at_end [] max_bytes = eof
at_end (b ∷ bs) max_bytes = finish_line (b ∷ bs) max_bytes

-- The loop, with what it buffered so far; the outcome, and what is left to read.
unfoldable pub read_from : ℕ → List ℕ → List (List ℕ) → LineOutcome × List (List ℕ)
unfolding finish_line cut
read_from max_bytes raw [] = (at_end raw max_bytes, [])
read_from max_bytes raw (chunk ∷ chunks) =
    let later = read_from max_bytes (raw ++ chunk) chunks in
    elim (cut chunk) [
      | some (head, rest) ↦ (finish_line (raw ++ head) max_bytes, rest ∷ chunks)
      | none ↦ if ltb max_bytes (length (raw ++ chunk)) then (too_long, chunks) else later
    ]

unfoldable pub read_line_capped : ℕ → List (List ℕ) → LineOutcome × List (List ℕ)
unfolding read_from
read_line_capped max_bytes chunks = read_from max_bytes [] chunks
