-- ===== src/Mime/Trims.antt =====
-- Where the reader of an address cuts it, and the white space around it
-- (crates/bridge/src/mail/parser.rs).
use tutabridge.Prelude.{
  ℕ, ◌≡◌, refl, ap, ◌∙◌, sym, Bool, true, false, not, none, some, [], ◌∷◌, ◌++◌, all, arith,
  append_assoc,
}
use tutabridge.Prelude.Text.{Text, is_empty, trim, trim_start, trim_end, split_once}
use tutabridge.Mime.Ends.{trim_end-black}
use tutabridge.Mime.Addresses.{split_at_last}
use tutabridge.Mime.Entries.{bare}

split_at_last-none : (s : Text) → all bare s ≡ true → split_at_last b'<' (s ++ b'>' ∷ []) ≡ none
unfolding split_at_last
split_at_last-none [] h = refl
split_at_last-none (c ∷ s) h = rw (split_at_last-none s (ground arith)) (ground arith)

pub split_at_last-bare : (s : Text) → all bare s ≡ true → split_at_last b'<' s ≡ none
unfolding split_at_last
split_at_last-bare [] h = refl
split_at_last-bare (c ∷ s) h = rw (split_at_last-bare s (ground arith)) (ground arith)

pub split_at_last-append :
    (x s : Text)
    → all bare s ≡ true
    → split_at_last b'<' (x ++ b'<' ∷ (s ++ b'>' ∷ [])) ≡ some (x, s ++ b'>' ∷ [])
unfolding split_at_last
split_at_last-append [] s h = rw (split_at_last-none s h, split_at_last) refl
split_at_last-append (c ∷ x) s h = rw (split_at_last-append x s h) refl

pub split_once-angle :
    (s : Text) → all bare s ≡ true → split_once b'>' (s ++ b'>' ∷ []) ≡ some (s, [])
unfolding split_once
split_once-angle [] h = refl
split_once-angle (c ∷ s) h = rw (split_once-angle s (ground arith)) (ground arith)

pub is_empty-append : (x : Text) (c : ℕ) (y : Text) → is_empty (x ++ c ∷ y) ≡ false
is_empty-append [] c y = refl
is_empty-append (d ∷ x) c y = refl

abbrev pub angles : Text → Text
angles a = b'<' ∷ (a ++ b'>' ∷ [])

module _ (white : ℕ → Bool) where
  trim_start-append :
      (x y : Text) (c : ℕ)
      → white c ≡ false
      → trim_start white (x ++ c ∷ y) ≡ trim_start white x ++ c ∷ y
  unfolding trim_start
  trim_start-append [] y c h = rw h refl
  trim_start-append (d ∷ x) y c h = ground (arith, trim_start-append x y c h)

  abbrev pub black : ℕ → Bool
  black c = not (white c)

  trim_end-all : (s : Text) → all black s ≡ true → trim_end white s ≡ s
  unfolding trim_end
  trim_end-all [] h = refl
  trim_end-all (c ∷ s) h = ground (arith, trim_end-all s (ground arith))

  trim_start-all : (s : Text) → all black s ≡ true → trim_start white s ≡ s
  unfolding trim_start
  trim_start-all [] h = refl
  trim_start-all (c ∷ s) h = ground arith

  pub trim-all : (s : Text) → all black s ≡ true → trim white s ≡ s
  trim-all s h = rw (trim_end-all s h) (trim_start-all s h)

  tail_full : (x a : Text) → is_empty a ≡ false → is_empty (x ++ a) ≡ false
  tail_full [] a h = h
  tail_full (c ∷ x) a h = refl

  trim_end-tail :
      (x a : Text) → all black a ≡ true → is_empty a ≡ false → trim_end white (x ++ a) ≡ x ++ a
  unfolding trim_end
  trim_end-tail [] a h k = trim_end-all a h
  trim_end-tail (c ∷ x) a h k = ground (arith, trim_end-tail x a h k, tail_full x a k)

  trim_start-pad :
      (pad a : Text) → all white pad ≡ true → trim_start white (pad ++ a) ≡ trim_start white a
  unfolding trim_start
  trim_start-pad [] a h = refl
  trim_start-pad (c ∷ pad) a h = ground (arith, trim_start-pad pad a (ground arith))

  pub trim-pad :
      (pad a : Text)
      → all white pad ≡ true
      → all black a ≡ true
      → is_empty a ≡ false
      → trim white (pad ++ a) ≡ a
  trim-pad pad a h k n =
      ap (trim_start white) (trim_end-tail pad a k n)
      ∙ (trim_start-pad pad a h ∙ trim_start-all a k)

  trim_end-angles :
      (x a : Text) → white b'>' ≡ false → trim_end white (x ++ angles a) ≡ x ++ angles a
  trim_end-angles x a k =
      rw (sym (append_assoc x (b'<' ∷ a) (b'>' ∷ []))) (trim_end-black white (x ++ b'<' ∷ a) b'>' k)

  pub trim-angles :
      (x a : Text)
      → white b'<' ≡ false
      → white b'>' ≡ false
      → trim white (x ++ angles a) ≡ trim_start white x ++ angles a
  trim-angles x a h k =
      ap (trim_start white) (trim_end-angles x a k) ∙ trim_start-append x (a ++ b'>' ∷ []) b'<' h
