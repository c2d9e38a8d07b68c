-- ===== src/Mime/Ends.antt =====
-- The two ends of a text: prefixes, suffixes and white space there.
use tutabridge.Prelude.{
  ℕ, ◌+◌, ◌≡◌, refl, ap, ◌∙◌, sym, Bool, true, false, some, [], ◌∷◌, ◌++◌, arith, length, drop,
  append-nil,
}
use tutabridge.Prelude.Text.{Text, starts_with, trim_start, trim_end, trim, is_empty}
use tutabridge.Mime.Strings.{
  reverse_onto, reverse, ends_with, strip_suffix, drop_last, to_ascii_lowercase, ascii_lower,
}

pub starts_with-append : (p s : Text) → starts_with (p ++ s) p ≡ true
unfolding starts_with
starts_with-append [] [] = refl
starts_with-append [] (c ∷ s) = refl
starts_with-append (d ∷ p) s = ground (arith, starts_with-append p s)

drop-append : (p s : Text) → drop (length p) (p ++ s) ≡ s
drop-append [] s = refl
drop-append (c ∷ p) s = drop-append p s

reverse_onto-lem : (s t u : Text) → reverse_onto s t ++ u ≡ reverse_onto s (t ++ u)
unfolding reverse_onto
reverse_onto-lem [] t u = refl
reverse_onto-lem (c ∷ s) t u = reverse_onto-lem s (c ∷ t) u

reverse_onto-reverse_onto :
    (s t u : Text) → reverse_onto (reverse_onto s t) u ≡ reverse_onto t (s ++ u)
unfolding reverse_onto
reverse_onto-reverse_onto [] t u = refl
reverse_onto-reverse_onto (c ∷ s) t u = reverse_onto-reverse_onto s (c ∷ t) u

reverse-reverse : (s : Text) → reverse (reverse s) ≡ s
unfolding reverse_onto
reverse-reverse s = reverse_onto-reverse_onto s [] [] ∙ append-nil s

reverse_onto-append : (s t u : Text) → reverse_onto (s ++ t) u ≡ reverse_onto t (reverse_onto s u)
unfolding reverse_onto
reverse_onto-append [] t u = refl
reverse_onto-append (c ∷ s) t u = reverse_onto-append s t (c ∷ u)

reverse-append : (s t : Text) → reverse (s ++ t) ≡ reverse t ++ reverse s
unfolding reverse_onto
reverse-append s t = reverse_onto-append s t [] ∙ sym (reverse_onto-lem t [] (reverse s))

length-reverse_onto : (s t : Text) → length (reverse_onto s t) ≡ length s + length t
unfolding reverse_onto
length-reverse_onto [] t = omega arith
length-reverse_onto (c ∷ s) t = omega (arith, length-reverse_onto s (c ∷ t))

length-reverse : (s : Text) → length s ≡ length (reverse s)
length-reverse s = omega (arith, length-reverse_onto s [])

drop-reversed : (s t : Text) → reverse (drop (length t) (reverse t ++ reverse s)) ≡ s
drop-reversed s t = rw (length-reverse t, drop-append (reverse t) (reverse s)) (reverse-reverse s)

pub drop_last-append : (s t : Text) → drop_last (length t) (s ++ t) ≡ s
drop_last-append s t = rw (reverse-append s t) (drop-reversed s t)

pub strip_suffix-append : (s t : Text) → strip_suffix t (s ++ t) ≡ some s
unfolding strip_suffix ends_with
strip_suffix-append s t =
    rw (reverse-append s t, starts_with-append (reverse t) (reverse s))
      (ap some (drop-reversed s t))

pub to_ascii_lowercase-append :
    (s t : Text) → to_ascii_lowercase (s ++ t) ≡ to_ascii_lowercase s ++ to_ascii_lowercase t
unfolding to_ascii_lowercase
to_ascii_lowercase-append [] t = refl
to_ascii_lowercase-append (c ∷ s) t = ap (λ r. ascii_lower c ∷ r) (to_ascii_lowercase-append s t)

is_empty-snoc : (s : Text) (c : ℕ) → is_empty (s ++ c ∷ []) ≡ false
is_empty-snoc [] c = refl
is_empty-snoc (d ∷ s) c = refl

module _ (white : ℕ → Bool) where
  pub trim_end-black :
      (s : Text) (c : ℕ) → white c ≡ false → trim_end white (s ++ c ∷ []) ≡ s ++ c ∷ []
  unfolding trim_end
  trim_end-black [] c h = rw h refl
  trim_end-black (d ∷ s) c h = ground (arith, trim_end-black s c h, is_empty-snoc s c)

  pub trim-black :
      (c d : ℕ) (s : Text)
      → white c ≡ false
      → white d ≡ false
      → trim white (c ∷ (s ++ d ∷ [])) ≡ c ∷ (s ++ d ∷ [])
  unfolding trim_start
  trim-black c d s h k = rw (trim_end-black (c ∷ s) d k, h) refl
