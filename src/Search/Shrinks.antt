-- ===== src/Search/Shrinks.antt =====
-- That no function of the parser gives back more tokens than it was given
-- (crates/bridge/src/imap/search.rs).
use tutabridge.Prelude.{
  ℕ, zero, suc, ◌≤◌, arith, Bool, true, false, Option, none, some, List, [], ◌∷◌, length,
}
use tutabridge.Prelude.Text.{Text}
use tutabridge.Search.Keys.{SearchKey, SearchKeys}
use tutabridge.Search.Tokens.{Token, lparen, rparen, atom, quoted}
use tutabridge.Search.Parse.{
  Action, leaf, skipping, either, negation, charset, header_args, uid_arg, unknown, text_arg,
  date_arg, size_arg, action_of, next_arg, str_key, size_key, header_key, date_key, and_more,
  parse_atom_key, parse_key_list, parse_key,
}

pub length-next_arg : (ts : List Token) → length (next_arg ts).1 ≤ length ts
unfolding next_arg
length-next_arg [] = omega arith
length-next_arg (lparen ∷ ts) = omega arith
length-next_arg (rparen ∷ ts) = omega arith
length-next_arg (atom s ∷ ts) = omega arith
length-next_arg (quoted s ∷ ts) = omega arith

abbrev pub Shrinks : (List Token → Option SearchKey × List Token) → Type 0
Shrinks p = (ts : List Token) → length (p ts).1 ≤ length ts

module _ (lower upper : Text → Text) where
  pub parse_atom_key-le :
      (p : List Token → Option SearchKey × List Token) (p-Shrinks : Shrinks p) (a : Action)
      (w : Text) (ts : List Token)
      → length (parse_atom_key lower upper p a w ts).1 ≤ length ts
  unfolding parse_atom_key str_key size_key header_key date_key
  parse_atom_key-le p h (leaf key) w ts = omega arith
  parse_atom_key-le p h (skipping key) w ts = length-next_arg ts
  parse_atom_key-le p h either w ts = omega (arith, h ts, h (p ts).1)
  parse_atom_key-le p h negation w ts = h ts
  parse_atom_key-le p h charset w ts = omega (arith, length-next_arg ts, h (next_arg ts).1)
  parse_atom_key-le p h header_args w ts =
      omega (arith, length-next_arg ts, length-next_arg (next_arg ts).1)
  parse_atom_key-le p h uid_arg w ts = length-next_arg ts
  parse_atom_key-le p h unknown w ts = omega arith
  parse_atom_key-le p h (text_arg key) w ts = length-next_arg ts
  parse_atom_key-le p h (date_arg key) w ts = length-next_arg ts
  parse_atom_key-le p h (size_arg key) w ts = length-next_arg ts

  and_more-le :
      (key : Option SearchKey × List Token) (more : List Token → SearchKeys × List Token)
      (h : (ts : List Token) → length (more ts).1 ≤ length ts)
      → length (and_more key more).1 ≤ length key.1
  and_more-le (none, ts) more h = omega arith
  and_more-le (some k, ts) more h = h ts

  abbrev pub Both : ℕ → Type 0
  Both fuel =
      Shrinks (parse_key lower upper fuel)
      × ((in_group : Bool) (ts : List Token)
          → length (parse_key_list lower upper fuel in_group ts).1 ≤ length ts)

  -- A criterion takes a token at least.
  pub key-lt :
      (fuel : ℕ) (h : Both fuel) (t : Token) (ts : List Token)
      → length (parse_key lower upper (suc fuel) (t ∷ ts)).1 ≤ length ts
  unfolding parse_key
  key-lt fuel h lparen ts = h.1 true ts
  key-lt fuel h rparen ts = omega arith
  key-lt fuel h (atom w) ts =
      parse_atom_key-le (parse_key lower upper fuel) h.0 (action_of (upper w)) w ts
  key-lt fuel h (quoted s) ts = omega arith

  key-le : (fuel : ℕ) (h : Both fuel) → Shrinks (parse_key lower upper (suc fuel))
  unfolding parse_key
  key-le fuel h [] = omega arith
  key-le fuel h (t ∷ ts) = omega (arith, key-lt fuel h t ts)

  list-le :
      (fuel : ℕ) (h : Both fuel) (in_group : Bool) (ts : List Token)
      → length (parse_key_list lower upper (suc fuel) in_group ts).1 ≤ length ts
  unfolding parse_key_list
  list-le fuel h in_group [] = omega arith
  list-le fuel h true (rparen ∷ ts) = omega arith
  list-le fuel h false (rparen ∷ ts) = omega (arith, h.1 false ts)
  list-le fuel h g (lparen ∷ ts) = omega (
    arith,
    h.0 (lparen ∷ ts),
    and_more-le (parse_key lower upper fuel (lparen ∷ ts)) (parse_key_list lower upper fuel g)
        (h.1 g),
  )
  list-le fuel h g (atom s ∷ ts) = omega (
    arith,
    h.0 (atom s ∷ ts),
    and_more-le (parse_key lower upper fuel (atom s ∷ ts)) (parse_key_list lower upper fuel g)
        (h.1 g),
  )
  list-le fuel h g (quoted s ∷ ts) = omega (
    arith,
    h.0 (quoted s ∷ ts),
    and_more-le (parse_key lower upper fuel (quoted s ∷ ts)) (parse_key_list lower upper fuel g)
        (h.1 g),
  )

  pub both : (fuel : ℕ) → Both fuel
  unfolding parse_key parse_key_list
  both zero = (λ ts. omega arith, λ g ts. omega arith)
  both (suc fuel) = (key-le fuel (both fuel), list-le fuel (both fuel))
