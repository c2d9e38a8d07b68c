-- ===== src/Search/Tokens.antt =====
-- `tokenize`, and sequence sets (crates/bridge/src/imap/search.rs). The loop is a walk along the text
-- that knows whether it stands in an atom or in a quoted string, and what it has read of it.
use tutabridge.Prelude.{
  ℕ, ◌^◌, Bool, not, ◌&&◌, ◌||◌, Option, none, some, List, [], ◌∷◌, ◌++◌, ◌==◌, if◌then◌else◌, keep,
  all,
}
use tutabridge.Prelude.Text.{
  Text, codes, same_text, is_empty, is_digit, split, split_once, parse_number,
}
use tutabridge.Search.Keys.{SeqRange, SeqSet}

pub data Token : Type 0 where
  lparen rparen : Token
  atom quoted : Text → Token

pub data Kind : Type 0 where
  blank newline open_paren close_paren quote backslash plain : Kind

abbrev kind : ℕ → Kind
kind c =
    if c == b' ' || c == 9
    then blank
    else if c == 13 || c == 10
    then newline
    else if c == b'('
    then open_paren
    else if c == b')'
    then close_paren
    else if c == b'"'
    then quote
    else if c == 92
    then backslash
    else plain

pub data Mode : Type 0 where
  outside : Mode
  in_atom in_quotes : Text → Mode

-- A line feed ends no atom; a backslash stands for itself outside of quotes.
scan : Mode → Text → List Token
scan outside [] = []
scan (in_atom s) [] = atom s ∷ []
scan (in_quotes s) [] = quoted s ∷ []
scan outside (c ∷ cs) = elim (kind c) [
  | blank ↦ scan outside cs
  | newline ↦ scan outside cs
  | open_paren ↦ lparen ∷ scan outside cs
  | close_paren ↦ rparen ∷ scan outside cs
  | quote ↦ scan (in_quotes []) cs
  | backslash ↦ scan (in_atom (c ∷ [])) cs
  | plain ↦ scan (in_atom (c ∷ [])) cs
]
scan (in_atom s) (c ∷ cs) = elim (kind c) [
  | blank ↦ atom s ∷ scan outside cs
  | newline ↦ scan (in_atom (s ++ c ∷ [])) cs
  | open_paren ↦ atom s ∷ lparen ∷ scan outside cs
  | close_paren ↦ atom s ∷ rparen ∷ scan outside cs
  | quote ↦ atom s ∷ scan (in_quotes []) cs
  | backslash ↦ scan (in_atom (s ++ c ∷ [])) cs
  | plain ↦ scan (in_atom (s ++ c ∷ [])) cs
]
scan (in_quotes s) (c ∷ []) = elim (kind c) [
  | quote ↦ quoted s ∷ []
  | backslash ↦ quoted s ∷ []
  | blank ↦ quoted (s ++ c ∷ []) ∷ []
  | newline ↦ quoted (s ++ c ∷ []) ∷ []
  | open_paren ↦ quoted (s ++ c ∷ []) ∷ []
  | close_paren ↦ quoted (s ++ c ∷ []) ∷ []
  | plain ↦ quoted (s ++ c ∷ []) ∷ []
]
scan (in_quotes s) (c ∷ d ∷ cs) = elim (kind c) [
  | quote ↦ quoted s ∷ scan outside (d ∷ cs)
  | backslash ↦ scan (in_quotes (s ++ d ∷ [])) cs
  | blank ↦ scan (in_quotes (s ++ c ∷ [])) (d ∷ cs)
  | newline ↦ scan (in_quotes (s ++ c ∷ [])) (d ∷ cs)
  | open_paren ↦ scan (in_quotes (s ++ c ∷ [])) (d ∷ cs)
  | close_paren ↦ scan (in_quotes (s ++ c ∷ [])) (d ∷ cs)
  | plain ↦ scan (in_quotes (s ++ c ∷ [])) (d ∷ cs)
]

unfoldable pub tokenize : Text → List Token
unfolding scan
tokenize input = scan outside input

unfoldable pub is_seqset : Text → Bool
is_seqset s = not (is_empty s) && all (λ c. is_digit c || (c == b':' || (c == b',' || c == b'*'))) s

abbrev or_zero : Option ℕ → ℕ
or_zero none = 0
or_zero (some n) = n

abbrev exactly : Option ℕ → List SeqRange
exactly none = []
exactly (some n) = record { start = n; end = some n } ∷ []

-- An end that does not parse is open, like `*`; a lone number that does not parse is left out.
unfoldable pub parse_range : Text → List SeqRange
parse_range part = elim (split_once b':' part) [
  | some (a, b) ↦
      record {
        start = if same_text a (codes "*") then 0 else or_zero (parse_number (2 ^ 32) a);
        end = if same_text b (codes "*") then none else parse_number (2 ^ 32) b;
      }
      ∷ []
  | none ↦
      if same_text part (codes "*")
      then record { start = 0; end = none } ∷ []
      else exactly (parse_number (2 ^ 32) part)
]

parse_ranges : List Text → SeqSet
unfolding parse_range
parse_ranges [] = []
parse_ranges (part ∷ parts) = parse_range part ++ parse_ranges parts

unfoldable pub parse_seqset : Text → SeqSet
unfolding parse_ranges
parse_seqset s = parse_ranges (keep (λ part. not (is_empty part)) (split b',' s))
