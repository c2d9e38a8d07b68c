-- ===== src/Mime/Sections.antt =====
-- `filter_header_fields` (crates/bridge/src/imap/session.rs): the two sections that FETCH takes out of a
-- header.
use tutabridge.Prelude.{
  ℕ, ◌+◌, ◌≡◌, refl, ap, ◌∙◌, Bool, true, false, not, List, [], ◌∷◌, ◌++◌, length, length-append,
  if◌then◌else◌, arith, Bool-cases, inl, inr,
}
use tutabridge.Prelude.Text.{Text, push, starts_with}
use tutabridge.Mime.Library.{Library}
use tutabridge.Mime.Strings.{split_at_text}
use tutabridge.Mime.Headers.{
  continues, wanted, filtered, split_inclusive, filter_header_fields, unended, crlf_crlf,
}

abbrev joined : List Text → Text
joined [] = []
joined (l ∷ ls) = l ++ joined ls

joined-push : (c : ℕ) (ls : List Text) → joined (push c ls) ≡ c ∷ joined ls
joined-push c [] = refl
joined-push c (l ∷ ls) = refl

joined-split_inclusive : (s : Text) → joined (split_inclusive s) ≡ s
unfolding split_inclusive
joined-split_inclusive [] = refl
joined-split_inclusive (c ∷ []) = refl
joined-split_inclusive (c ∷ d ∷ s) = ground (
  arith,
  joined-split_inclusive s,
  joined-split_inclusive (d ∷ s),
  joined-push c (split_inclusive (d ∷ s)),
)

abbrev line_of : Bool → Text → Text → Text
line_of kept l rest = if kept then l ++ rest else rest

either :
    (k : Bool) (l a b : Text)
    → length (line_of k l a) + length (line_of (not k) l b) ≡ length l + (length a + length b)
either true l a b = omega (arith, length-append l a)
either false l a b = omega (arith, length-append l b)

-- The first line names a field.
abbrev starts_named : List Text → Bool
starts_named [] = true
starts_named (l ∷ ls) = not (continues l)

push-named : (c : ℕ) (ls : List Text) → continues (c ∷ []) ≡ false → starts_named (push c ls) ≡ true
unfolding starts_with
push-named c [] h = ground arith
push-named c (l ∷ ls) h = ground arith

split_inclusive-named : (s : Text) → continues s ≡ false → starts_named (split_inclusive s) ≡ true
unfolding split_inclusive starts_with
split_inclusive-named [] h = refl
split_inclusive-named (c ∷ []) h = ground arith
split_inclusive-named (c ∷ d ∷ s) h =
    ground (arith, push-named c (split_inclusive (d ∷ s)) (ground arith))

abbrev section : Text → Text
section rfc = unended (split_at_text crlf_crlf rfc) rfc

abbrev lines_of : Text → List Text
lines_of rfc = split_inclusive (section rfc)

module _ (lib : Library) (fields : List Text) where
  abbrev next : Bool → Bool → Text → Bool
  next negate keep l = if continues l then keep else wanted lib fields negate l

  next-not : (keep : Bool) (l : Text) → next true (not keep) l ≡ not (next false keep l)
  next-not keep l = elim (Bool-cases (continues l)) [ inl h ↦ rw h refl | inr h ↦ rw h refl ]

  filtered_step :
      (negate keep : Bool) (l : Text) (ls : List Text)
      → filtered lib fields negate keep (l ∷ ls)
        ≡ line_of (next negate keep l) l (filtered lib fields negate (next negate keep l) ls)
  unfolding filtered
  filtered_step negate keep l ls = refl

  abbrev total : Bool → Bool → List Text → ℕ
  total k n ls = length (filtered lib fields false k ls) + length (filtered lib fields true n ls)

  both_end : (keep : Bool) → total keep (not keep) [] ≡ 0
  unfolding filtered
  both_end keep = omega arith

  both : (keep : Bool) (ls : List Text) → total keep (not keep) ls ≡ length (joined ls)
  both keep [] = both_end keep
  both keep (l ∷ ls) =
      rw (filtered_step false keep l ls, filtered_step true (not keep) l ls, next-not keep l)
        (either (next false keep l) l (filtered lib fields false (next false keep l) ls)
            (filtered lib fields true (not (next false keep l)) ls)
          ∙ omega (arith, both (next false keep l) ls, length-append l (joined ls)))

  -- From a line that names a field on.
  both_named :
      (l : Text) (ls : List Text)
      → continues l ≡ false
      → total false false (l ∷ ls) ≡ length (joined (l ∷ ls))
  both_named l ls h =
      rw (filtered_step false false l ls, filtered_step true false l ls, h)
        (either (wanted lib fields false l) l
            (filtered lib fields false (wanted lib fields false l) ls)
            (filtered lib fields true (not (wanted lib fields false l)) ls)
          ∙ omega (arith, both (wanted lib fields false l) ls, length-append l (joined ls)))

  named : (ls : List Text) → starts_named ls ≡ true → total false false ls ≡ length (joined ls)
  unfolding filtered
  named [] h = both_end true
  named (l ∷ ls) h = both_named l ls (ground arith)

  -- The fields that are asked for and those that are not make up the header section, unless it starts
  -- with a line that continues none: together the two answers have its characters and the two blank
  -- lines that end them.
  pub length-filter_header_fields :
      (rfc : Text)
      → continues (unended (split_at_text crlf_crlf rfc) rfc) ≡ false
      → length (filter_header_fields lib rfc fields false)
          + length (filter_header_fields lib rfc fields true)
        ≡ length (unended (split_at_text crlf_crlf rfc) rfc) + 4
  unfolding filter_header_fields
  length-filter_header_fields rfc h = omega (
    arith,
    length-append (filtered lib fields false false (lines_of rfc)) (13 ∷ 10 ∷ []),
    length-append (filtered lib fields true false (lines_of rfc)) (13 ∷ 10 ∷ []),
    named (lines_of rfc) (split_inclusive-named (section rfc) h),
    ap length (joined-split_inclusive (section rfc)),
  )
