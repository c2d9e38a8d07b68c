-- ===== src/Search/Fuel.antt =====
-- That the recursion of the parser of crates/bridge/src/imap/search.rs ends, and leaves nothing unread.
use tutabridge.Prelude.{
  ℕ, zero, suc, ◌*◌, ◌≤◌, arith, sym, ◌∙◌, Bool, true, false, Option, none, some, List, [], ◌∷◌,
  length, ◌≡◌, refl,
}
use tutabridge.Prelude.Text.{Text}
use tutabridge.Search.Keys.{SearchKey, SearchKeys, nil}
use tutabridge.Search.Tokens.{Token, lparen, rparen, atom, quoted}
use tutabridge.Search.Parse.{
  Action, leaf, skipping, either, negation, charset, header_args, uid_arg, unknown, text_arg,
  date_arg, size_arg, action_of, next_arg, and_more, parse_atom_key, parse_key_list, parse_key,
  parse_tokens,
}
use tutabridge.Search.Shrinks.{length-next_arg, Shrinks, parse_atom_key-le, key-lt, both}

module _ (lower upper : Text → Text) where
  parse_atom_key_same :
      (p q : List Token → Option SearchKey × List Token) (p-Shrinks : Shrinks p) (a : Action)
      (w : Text) (ts : List Token) (same : (us : List Token) → length us ≤ length ts → p us ≡ q us)
      → parse_atom_key lower upper p a w ts ≡ parse_atom_key lower upper q a w ts
  unfolding parse_atom_key
  parse_atom_key_same p q h (leaf key) w ts e = refl
  parse_atom_key_same p q h (skipping key) w ts e = refl
  parse_atom_key_same p q h either w ts e = rw (e (p ts).1 (h ts)) (rw (e ts (omega arith)) refl)
  parse_atom_key_same p q h negation w ts e = rw (e ts (omega arith)) refl
  parse_atom_key_same p q h charset w ts e = rw (e (next_arg ts).1 (length-next_arg ts)) refl
  parse_atom_key_same p q h header_args w ts e = refl
  parse_atom_key_same p q h uid_arg w ts e = refl
  parse_atom_key_same p q h unknown w ts e = refl
  parse_atom_key_same p q h (text_arg key) w ts e = refl
  parse_atom_key_same p q h (date_arg key) w ts e = refl
  parse_atom_key_same p q h (size_arg key) w ts e = refl

  abbrev SameKey : ℕ → ℕ → Type 0
  SameKey f g =
      (ts : List Token)
      → 2 * length ts ≤ suc f
      → 2 * length ts ≤ suc g
      → parse_key lower upper f ts ≡ parse_key lower upper g ts

  abbrev SameList : ℕ → ℕ → Type 0
  SameList f g =
      (in_group : Bool) (ts : List Token)
      → 2 * length ts ≤ f
      → 2 * length ts ≤ g
      → parse_key_list lower upper f in_group ts ≡ parse_key_list lower upper g in_group ts

  key_same : (f g : ℕ) → SameKey f g → SameList f g → SameKey (suc f) (suc g)
  unfolding parse_key
  key_same f g k l [] a b = refl
  key_same f g k l (rparen ∷ ts) a b = refl
  key_same f g k l (quoted s ∷ ts) a b = refl
  key_same f g k l (lparen ∷ ts) a b = rw (l true ts (omega (arith, a)) (omega (arith, b))) refl
  key_same f g k l (atom w ∷ ts) a b =
      rw
        (parse_atom_key_same (parse_key lower upper f) (parse_key lower upper g)
          (both lower upper f).0 (action_of (upper w)) w ts
          (λ us le. k us (omega (arith, a, le)) (omega (arith, b, le))))
        refl

  and_more_same :
      (key : Option SearchKey × List Token) (more other : List Token → SearchKeys × List Token)
      → more key.1 ≡ other key.1
      → and_more key more ≡ and_more key other
  and_more_same (none, ts) more other e = refl
  and_more_same (some k, ts) more other e = rw e refl

  -- What follows the first criterion is shorter than the list that has it.
  rest_same :
      (f g : ℕ) (k : SameKey f g) (l : SameList f g) (in_group : Bool) (t : Token) (ts : List Token)
      → 2 * length (t ∷ ts) ≤ suc f
      → 2 * length (t ∷ ts) ≤ suc g
      → and_more (parse_key lower upper f (t ∷ ts)) (parse_key_list lower upper f in_group)
        ≡ and_more (parse_key lower upper g (t ∷ ts)) (parse_key_list lower upper g in_group)
  rest_same zero g k l in_group t ts a b = absurd (omega (arith, a))
  rest_same (suc f) zero k l in_group t ts a b = absurd (omega (arith, b))
  rest_same (suc f) (suc g) k l in_group t ts a b =
      let key = parse_key lower upper (suc g) (t ∷ ts) in
      rw (k (t ∷ ts) a b) (
        and_more_same key (parse_key_list lower upper (suc f) in_group)
          (parse_key_list lower upper (suc g) in_group)
          (l in_group key.1 (omega (arith, a, key-lt lower upper g (both lower upper g) t ts))
            (omega (arith, b, key-lt lower upper g (both lower upper g) t ts))))

  list_same : (f g : ℕ) → SameKey f g → SameList f g → SameList (suc f) (suc g)
  unfolding parse_key_list
  list_same f g k l in_group [] a b = refl
  list_same f g k l true (rparen ∷ ts) a b = refl
  list_same f g k l false (rparen ∷ ts) a b = l false ts (omega (arith, a)) (omega (arith, b))
  list_same f g k l in_group (lparen ∷ ts) a b = rest_same f g k l in_group lparen ts a b
  list_same f g k l in_group (atom w ∷ ts) a b = rest_same f g k l in_group (atom w) ts a b
  list_same f g k l in_group (quoted w ∷ ts) a b = rest_same f g k l in_group (quoted w) ts a b

  no_key :
      (fuel : ℕ) (ts : List Token) → 2 * length ts ≤ 1 → parse_key lower upper fuel ts ≡ (none, [])
  unfolding parse_key
  no_key zero [] a = refl
  no_key (suc fuel) [] a = refl
  no_key fuel (t ∷ ts) a = absurd (omega (arith, a))

  no_list :
      (fuel : ℕ) (in_group : Bool) (ts : List Token)
      → 2 * length ts ≤ 1
      → parse_key_list lower upper fuel in_group ts ≡ (nil, [])
  unfolding parse_key_list
  no_list zero in_group [] a = refl
  no_list (suc fuel) in_group [] a = refl
  no_list fuel in_group (t ∷ ts) a = absurd (omega (arith, a))

  same : (f g : ℕ) → SameKey f g × SameList f g
  same zero g = (
    λ ts a b. no_key 0 ts a ∙ sym (no_key g ts a),
    λ i ts a b. no_list 0 i ts (omega (arith, a)) ∙ sym (no_list g i ts (omega (arith, a))),
  )
  same (suc f) zero = (
    λ ts a b. no_key (suc f) ts b ∙ sym (no_key 0 ts b),
    λ i ts a b. no_list (suc f) i ts (omega (arith, b)) ∙ sym (no_list 0 i ts (omega (arith, b))),
  )
  same (suc f) (suc g) =
      let k = (same f g).0 in let l = (same f g).1 in (key_same f g k l, list_same f g k l)

  parse_key_list-rest :
      (fuel : ℕ) (tokens : List Token) (enough : 2 * length tokens ≤ fuel)
      → (parse_key_list lower upper fuel false tokens).1 ≡ []
  unfolding parse_key_list parse_key
  parse_key_list-rest zero [] h = refl
  parse_key_list-rest (suc fuel) [] h = refl
  parse_key_list-rest zero (t ∷ ts) h = absurd (omega (arith, h))
  parse_key_list-rest (suc zero) (t ∷ ts) h = absurd (omega (arith, h))
  parse_key_list-rest (suc (suc fuel)) (rparen ∷ ts) h =
      parse_key_list-rest (suc fuel) ts (omega (arith, h))
  parse_key_list-rest (suc (suc fuel)) (quoted s ∷ ts) h =
      parse_key_list-rest (suc fuel) ts (omega (arith, h))
  parse_key_list-rest (suc (suc fuel)) (lparen ∷ ts) h =
      parse_key_list-rest (suc fuel) (parse_key_list lower upper fuel true ts).1
        (omega (arith, h, (both lower upper fuel).1 true ts))
  parse_key_list-rest (suc (suc fuel)) (atom w ∷ ts) h =
      let p = parse_key lower upper fuel in
      parse_key_list-rest (suc fuel) (parse_atom_key lower upper p (action_of (upper w)) w ts).1 (
        omega (
          arith,
          h,
          parse_atom_key-le lower upper p (both lower upper fuel).0 (action_of (upper w)) w ts,
        ))

  -- The parser of a query never runs out of fuel: with twice as much as there are tokens or more, the
  -- query that is parsed is the same one, however much fuel there is, and every token is read, however
  -- parentheses and arguments are placed.
  pub parse_tokens_ends :
      (fuel : ℕ) (tokens : List Token) (enough : 2 * length tokens ≤ fuel)
      → (parse_tokens lower upper fuel tokens ≡ parse_tokens lower upper (2 * length tokens) tokens)
        × ((parse_key_list lower upper fuel false tokens).1 ≡ [])
  unfolding parse_tokens
  parse_tokens_ends fuel tokens enough = (
    rw ((same fuel (2 * length tokens)).1 false tokens enough (omega arith)) refl,
    parse_key_list-rest fuel tokens enough,
  )
