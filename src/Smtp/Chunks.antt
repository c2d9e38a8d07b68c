-- ===== src/Smtp/Chunks.antt =====
-- `read_line_capped` (crates/bridge/src/smtp/mod.rs) against a reader that has the whole stream.
use tutabridge.Prelude.{
  ℕ, ◌≡◌, refl, sym, ◌∙◌, true, Option, none, some, List, [], ◌∷◌, ◌++◌, append-nil, append_assoc,
  arith, ltb, length, length-append, Option-cases, inl, inr,
}
use tutabridge.Smtp.Lines.{
  LineOutcome, line, too_long, finish_line, cut, at_end, read_from, read_line_capped,
}

pub concat : List (List ℕ) → List ℕ
concat [] = []
concat (chunk ∷ chunks) = chunk ++ concat chunks

-- The first line of a stream, by the cap.
pub first_line : ℕ → List ℕ → LineOutcome
unfolding cut finish_line
first_line max_bytes stream = elim (cut stream) [
  | none ↦ at_end stream max_bytes
  | some (head, rest) ↦ finish_line head max_bytes
]

abbrev behind : List ℕ → Option (List ℕ × List ℕ) → Option (List ℕ × List ℕ)
behind raw none = none
behind raw (some (head, rest)) = some (raw ++ head, rest)

cut-behind : (raw s : List ℕ) → cut raw ≡ none → cut (raw ++ s) ≡ behind raw (cut s)
unfolding cut
cut-behind [] s h = ground arith
cut-behind (b ∷ raw) s h = ground (arith, cut-behind raw s)

cut-before :
    (s t head rest : List ℕ) → cut s ≡ some (head, rest) → cut (s ++ t) ≡ some (head, rest ++ t)
unfolding cut
cut-before [] t head rest h = ground arith
cut-before (b ∷ s) t head rest h = elim (Option-cases (cut s)) [
  | inl e ↦ ground arith
  | inr ((mid, left), e) ↦ ground (arith, cut-before s t mid left e)
]

cut-split : (s head rest : List ℕ) → cut s ≡ some (head, rest) → head ++ rest ≡ s
unfolding cut
cut-split [] head rest h = ground arith
cut-split (b ∷ s) head rest h = elim (Option-cases (cut s)) [
  | inl e ↦ ground arith
  | inr ((mid, left), e) ↦ ground (arith, cut-split s mid left e)
]

first_line-none :
    (max_bytes : ℕ) (s : List ℕ) → cut s ≡ none → first_line max_bytes s ≡ at_end s max_bytes
unfolding first_line
first_line-none max_bytes s e = rw (e, first_line) refl

first_line-some :
    (max_bytes : ℕ) (s head rest : List ℕ)
    → cut s ≡ some (head, rest)
    → first_line max_bytes s ≡ finish_line head max_bytes
unfolding first_line
first_line-some max_bytes s head rest e = rw (e, first_line) refl

at_end-long :
    (max_bytes : ℕ) (s : List ℕ) → ltb max_bytes (length s) ≡ true → at_end s max_bytes ≡ too_long
unfolding finish_line
at_end-long max_bytes [] k = ground arith
at_end-long max_bytes (b ∷ s) k = ground arith

longer :
    (max_bytes : ℕ) (raw s : List ℕ)
    → ltb max_bytes (length raw) ≡ true
    → ltb max_bytes (length (raw ++ s)) ≡ true
longer max_bytes raw s k = ground (arith, length-append raw s)

-- More than the cap before the line ends.
too_much :
    (max_bytes : ℕ) (raw s : List ℕ)
    → cut raw ≡ none
    → ltb max_bytes (length raw) ≡ true
    → first_line max_bytes (raw ++ s) ≡ too_long
unfolding finish_line
too_much max_bytes raw s h k = elim (Option-cases (cut s)) [
  | inl e ↦
      first_line-none max_bytes (raw ++ s) (ground (arith, cut-behind raw s h))
      ∙ at_end-long max_bytes (raw ++ s) (longer max_bytes raw s k)
  | inr ((head, rest), e) ↦
      first_line-some max_bytes (raw ++ s) (raw ++ head) rest (ground (arith, cut-behind raw s h))
      ∙ ground (arith, longer max_bytes raw head k)
]

read_from-first_line :
    (max_bytes : ℕ) (raw : List ℕ) (chunks : List (List ℕ))
    → cut raw ≡ none
    → (read_from max_bytes raw chunks).0 ≡ first_line max_bytes (raw ++ concat chunks)
unfolding read_from concat
read_from-first_line max_bytes raw [] h =
    ground (arith, append-nil raw, first_line-none max_bytes raw h)
read_from-first_line max_bytes raw (chunk ∷ chunks) h = elim (Option-cases (cut chunk)) [
  | inr ((head, rest), e) ↦
      rw (e, read_from)
        (sym (
          first_line-some max_bytes (raw ++ (chunk ++ concat chunks)) (raw ++ head)
            (rest ++ concat chunks)
            (ground (
              arith,
              cut-behind raw (chunk ++ concat chunks) h,
              cut-before chunk (concat chunks) head rest e,
            ))))
  | inl e ↦
      let none_yet : (cut (raw ++ chunk) ≡ none) = ground (arith, cut-behind raw chunk h) in
      rw (e, read_from)
        (ground (
          arith,
          append_assoc raw chunk (concat chunks),
          too_much max_bytes (raw ++ chunk) (concat chunks) none_yet,
          read_from-first_line max_bytes (raw ++ chunk) chunks none_yet,
        ))
]

-- Reading a line from the chunks in which the stream arrives has the outcome of reading it from the
-- stream as a whole: how the stream is cut into chunks does not matter.
pub read_line_capped_lem :
    (max_bytes : ℕ) (chunks : List (List ℕ))
    → (read_line_capped max_bytes chunks).0 ≡ first_line max_bytes (concat chunks)
unfolding read_line_capped cut
read_line_capped_lem max_bytes chunks = read_from-first_line max_bytes [] chunks refl

-- The line that is read and what is left of the stream.
rest_of :
    (max_bytes : ℕ) (raw : List ℕ) (chunks : List (List ℕ)) (text : List ℕ)
    → (read_from max_bytes raw chunks).0 ≡ line text
    → text ++ concat (read_from max_bytes raw chunks).1 ≡ raw ++ concat chunks
unfolding read_from concat finish_line
rest_of max_bytes [] [] text h = ground arith
rest_of max_bytes (b ∷ raw) [] text h = ground (arith, append-nil raw, append-nil text)
rest_of max_bytes raw (chunk ∷ chunks) text h = elim (Option-cases (cut chunk)) [
  | inr ((head, rest), e) ↦ ground (
    arith,
    append_assoc raw head (rest ++ concat chunks),
    append_assoc head rest (concat chunks),
    cut-split chunk head rest e,
  )
  | inl e ↦
      ground (
        arith,
        append_assoc raw chunk (concat chunks),
        rest_of max_bytes (raw ++ chunk) chunks text,
      )
]

-- No byte is lost or read twice: the line and the rest of the chunks are the stream.
read_line_capped-rest :
    (max_bytes : ℕ) (chunks : List (List ℕ)) (text : List ℕ)
    → (read_line_capped max_bytes chunks).0 ≡ line text
    → text ++ concat (read_line_capped max_bytes chunks).1 ≡ concat chunks
unfolding read_line_capped
read_line_capped-rest max_bytes chunks text h = rest_of max_bytes [] chunks text h
