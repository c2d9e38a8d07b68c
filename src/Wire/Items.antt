-- ===== src/Wire/Items.antt =====
-- The arguments of LOGIN and the items of FETCH (crates/bridge/src/imap/session.rs).
use tutabridge.Prelude.{
  ℕ, arith, sym, ◌∙◌, Bool, true, false, ◌||◌, List, [], ◌∷◌, ◌++◌, append_assoc, ◌==◌, ==_iff, any,
  ◌≡◌, refl, Bool-cases, inl, inr,
}
use tutabridge.Prelude.Text.{
  Text, codes, same_text, same_text_iff, contains, starts_with, split_by, push, trim, trim_start,
  trim_end,
}
use tutabridge.Wire.Strings.{replace, wants_literal, imap_string}
use tutabridge.Wire.Reading.{escaped}
use tutabridge.Wire.Args.{
  to_ascii_uppercase, quoted_token, parse_login_args, needs_body, fetch_items_use_content,
  first_with, separates, is_word,
}

quoted_token-plain :
    (c : ℕ) (s : Text)
    → (c == b'"') ≡ false
    → (c == 92) ≡ false
    → quoted_token (c ∷ s) ≡ first_with c (quoted_token s)
unfolding quoted_token
quoted_token-plain c [] e f = ground (arith, e, f)
quoted_token-plain c (d ∷ s) e f = ground (arith, e, f)

quoted_token-escaped : (s rest : Text) → quoted_token (escaped s ++ b'"' ∷ rest) ≡ (s, rest)
unfolding replace quoted_token
quoted_token-escaped [] [] = refl
quoted_token-escaped [] (r ∷ rest) = refl
quoted_token-escaped (c ∷ s) rest = elim (Bool-cases (c == b'"')) [
  | inl q ↦ rw ((==_iff c b'"').0 q) (rw (quoted_token-escaped s rest) refl)
  | inr q ↦ elim (Bool-cases (c == 92)) [
    | inl b ↦ rw ((==_iff c 92).0 b) (rw (quoted_token-escaped s rest) refl)
    | inr b ↦
        rw (b, q)
          (quoted_token-plain c (escaped s ++ b'"' ∷ rest) q b
            ∙ rw (quoted_token-escaped s rest) refl)
  ]
]

trim_end-quote :
    (white : ℕ → Bool) (s : Text)
    → white b'"' ≡ false
    → trim_end white (s ++ b'"' ∷ []) ≡ s ++ b'"' ∷ []
unfolding trim_end
trim_end-quote white [] h = ground (arith, h)
trim_end-quote white (c ∷ []) h = ground (arith, h)
trim_end-quote white (c ∷ d ∷ s) h = rw (trim_end-quote white (d ∷ s) h) (ground arith)

abbrev quoted : Text → Text
quoted s = b'"' ∷ (escaped s ++ b'"' ∷ [])

quoted_token-quoted : (s rest : Text) → quoted_token ((escaped s ++ b'"' ∷ []) ++ rest) ≡ (s, rest)
quoted_token-quoted s rest =
    rw (append_assoc (escaped s) (b'"' ∷ []) rest) (quoted_token-escaped s rest)

imap_string-quoted : (s : Text) → any wants_literal s ≡ false → imap_string s ≡ quoted s
unfolding imap_string replace
imap_string-quoted [] h = refl
imap_string-quoted (c ∷ s) h = rw h refl

trim_end-two :
    (white : ℕ → Bool) (s t : Text)
    → white b'"' ≡ false
    → trim_end white (quoted s ++ b' ' ∷ quoted t) ≡ quoted s ++ b' ' ∷ quoted t
trim_end-two white s t h =
    let whole = append_assoc (quoted s) (b' ' ∷ b'"' ∷ escaped t) (b'"' ∷ []) in
    rw (sym whole) (trim_end-quote white (quoted s ++ b' ' ∷ b'"' ∷ escaped t) h)

trim-two :
    (white : ℕ → Bool) (s t : Text)
    → white b'"' ≡ false
    → trim white (quoted s ++ b' ' ∷ quoted t) ≡ quoted s ++ b' ' ∷ quoted t
trim-two white s t h = rw (trim_end-two white s t h) (unfold trim_start in rw h refl)

trim_start-space :
    (white : ℕ → Bool) (t : Text)
    → white b'"' ≡ false
    → white b' ' ≡ true
    → trim_start white (b' ' ∷ quoted t) ≡ quoted t
unfolding trim_start
trim_start-space white t h k = rw (k, h) refl

-- A name and a password that are written as quoted strings, as every text is that has only ASCII
-- characters and no line break, are what LOGIN reads from its arguments.
pub parse_login_args-imap_string :
    (white : ℕ → Bool) (no_quote : white b'"' ≡ false) (space : white b' ' ≡ true)
    (user pass : Text) (plain_user : any wants_literal user ≡ false)
    (plain_pass : any wants_literal pass ≡ false)
    → parse_login_args white (imap_string user ++ b' ' ∷ imap_string pass) ≡ (user, pass)
unfolding parse_login_args
parse_login_args-imap_string white h k user pass a b =
    rw (imap_string-quoted user a, imap_string-quoted pass b)
      (rw (trim-two white user pass h) (
        rw (quoted_token-quoted user (b' ' ∷ quoted pass))
          (rw (trim_start-space white pass h k) (rw (quoted_token-escaped pass []) refl))))

starts_with-append : (s p q : Text) → starts_with s (p ++ q) ≡ true → starts_with s p ≡ true
unfolding starts_with
starts_with-append [] [] q h = refl
starts_with-append (c ∷ s) [] q h = refl
starts_with-append [] (a ∷ p) q h = h
starts_with-append (c ∷ s) (a ∷ p) q h = ground (arith, h, starts_with-append s p q)

contains-append : (s p q : Text) → contains s (p ++ q) ≡ true → contains s p ≡ true
unfolding contains
contains-append [] p q h = starts_with-append [] p q h
contains-append (c ∷ s) p q h =
    ground (arith, h, contains-append s p q, starts_with-append (c ∷ s) p q)

contains-starts_with : (s w : Text) → starts_with s w ≡ true → contains s w ≡ true
unfolding contains
contains-starts_with [] w h = h
contains-starts_with (c ∷ s) w h = rw h refl

contains-cons : (c : ℕ) (s w : Text) → contains s w ≡ true → contains (c ∷ s) w ≡ true
unfolding contains
contains-cons c s w h = ground (arith, h)

module _ (p : ℕ → Bool) where
  abbrev head_of : List Text → Text
  head_of [] = []
  head_of (t ∷ ts) = t

  abbrev tail_of : List Text → List Text
  tail_of [] = []
  tail_of (t ∷ ts) = ts

  head-push : (c : ℕ) (ts : List Text) → head_of (push c ts) ≡ c ∷ head_of ts
  head-push c [] = refl
  head-push c (t ∷ ts) = refl

  tail-push : (c : ℕ) (ts : List Text) → tail_of (push c ts) ≡ tail_of ts
  tail-push c [] = refl
  tail-push c (t ∷ ts) = refl

  starts_with-head : (s : Text) → starts_with s (head_of (split_by p s)) ≡ true
  unfolding split_by starts_with
  starts_with-head [] = refl
  starts_with-head (c ∷ s) = elim (Bool-cases (p c)) [
    | inl e ↦ rw e refl
    | inr e ↦ rw e (rw (head-push c (split_by p s)) (ground (arith, starts_with-head s)))
  ]

  abbrev among : Text → List Text → Bool
  among w ts = any (is_word w) ts

  among-parts :
      (w : Text) (ts : List Text)
      → among w ts ≡ true
      → (same_text (head_of ts) w || among w (tail_of ts)) ≡ true
  among-parts w [] h = ground (arith, h)
  among-parts w (t ∷ ts) h = h

  contains-parts :
      (s w : Text)
      → (among w (tail_of (split_by p s)) ≡ true → contains s w ≡ true)
      → among w (split_by p s) ≡ true
      → contains s w ≡ true
  contains-parts s w later h = elim (Bool-cases (same_text (head_of (split_by p s)) w)) [
    | inl e ↦
        contains-starts_with s w
          (rw (sym ((same_text_iff (head_of (split_by p s)) w).0 e)) (starts_with-head s))
    | inr e ↦ later (ground (arith, e, among-parts w (split_by p s) h))
  ]

  tail-cut : (c : ℕ) (s : Text) → p c ≡ true → tail_of (split_by p (c ∷ s)) ≡ split_by p s
  unfolding split_by
  tail-cut c s e = rw e refl

  tail-kept :
      (c : ℕ) (s : Text) → p c ≡ false → tail_of (split_by p (c ∷ s)) ≡ tail_of (split_by p s)
  unfolding split_by
  tail-kept c s e = rw e (tail-push c (split_by p s))

  contains-tail : (s w : Text) → among w (tail_of (split_by p s)) ≡ true → contains s w ≡ true
  contains-tail [] w h = unfold split_by in ground (arith, h)
  contains-tail (c ∷ s) w h = elim (Bool-cases (p c)) [
    | inl e ↦
        contains-cons c s w (contains-parts s w (contains-tail s w) (rw (sym (tail-cut c s e)) h))
    | inr e ↦ contains-cons c s w (contains-tail s w (rw (sym (tail-kept c s e)) h))
  ]

-- FETCH items that make the server load the whole message are items for which it looks the message
-- up when it answers: nothing is loaded in vain.
needs_body-fetch_items_use_content :
    (white : ℕ → Bool) (items : Text) (needed : needs_body white items ≡ true)
    → fetch_items_use_content items ≡ true
unfolding needs_body fetch_items_use_content
needs_body-fetch_items_use_content white items needed =
    let u = to_ascii_uppercase items in
    ground (
      arith,
      needed,
      contains-append u (codes "BODY") (codes "[]"),
      contains-append u (codes "BODY") (codes ".PEEK[]"),
      contains-parts (separates white) u (codes "RFC822")
          (contains-tail (separates white) u (codes "RFC822")),
    )
