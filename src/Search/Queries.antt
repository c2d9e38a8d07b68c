-- ===== src/Search/Queries.antt =====
-- The queries that clients send, and how they are written, against the parser of
-- crates/bridge/src/imap/search.rs. A query is a tree of its own here, with the words that write it:
-- any spelling that `to_uppercase` turns into the keyword.
use tutabridge.Prelude.{
  ℕ, zero, suc, ◌+◌, ◌*◌, ◌≤◌, arith, sym, ◌∙◌, Bool, true, false, some, List, [], ◌∷◌, ◌++◌,
  length, length-append, append_assoc, append-nil, ◌≡◌, refl,
}
use tutabridge.Prelude.Text.{Text}
use tutabridge.Search.Keys.{SearchKey, SearchKeys, or, not_key, header, nil, cons}
use tutabridge.Search.Tokens.{Token, lparen, rparen, atom, quoted}
use tutabridge.Search.Parse.{
  leaf, either, negation, header_args, text_arg, action_of, next_arg, str_key, header_key, fold_and,
  and_more, parse_atom_key, parse_key_list, parse_key, parse_tokens,
}

mutual
  pub data Query (upper : Text → Text) : Type 0 where
    flag : (w : Text) (key : SearchKey) → action_of (upper w) ≡ leaf key → Query upper
    holds :
        (w : Text) (key : Text → SearchKey)
        → action_of (upper w) ≡ text_arg key
        → Text
        → Query upper
    has_header : (w : Text) → action_of (upper w) ≡ header_args → Text → Text → Query upper
    not_query : (w : Text) → action_of (upper w) ≡ negation → Query upper → Query upper
    or_query : (w : Text) → action_of (upper w) ≡ either → Query upper → Query upper → Query upper
    group : Queries upper → Query upper

  pub data Queries (upper : Text → Text) : Type 0 where
    no_more : Queries upper
    more : Query upper → Queries upper → Queries upper

unfoldable mutual
  pub written : {upper : Text → Text} → Query upper → List Token
  written (flag w key e) = atom w ∷ []
  written (holds w key e s) = atom w ∷ quoted s ∷ []
  written (has_header w e name value) = atom w ∷ quoted name ∷ quoted value ∷ []
  written (not_query w e q) = atom w ∷ written q
  written (or_query w e q r) = atom w ∷ (written q ++ written r)
  written (group qs) = lparen ∷ (all_written qs ++ rparen ∷ [])

  pub all_written : {upper : Text → Text} → Queries upper → List Token
  all_written no_more = []
  all_written (more q qs) = written q ++ all_written qs

unfoldable mutual
  pub key_of : {upper : Text → Text} → Query upper → SearchKey
  key_of (flag w key e) = key
  key_of (holds w key e s) = key s
  key_of (has_header w e name value) = header name value
  key_of (not_query w e q) = not_key (key_of q)
  key_of (or_query w e q r) = or (key_of q) (key_of r)
  key_of (group qs) = fold_and (keys_of qs)

  pub keys_of : {upper : Text → Text} → Queries upper → SearchKeys
  keys_of no_more = nil
  keys_of (more q qs) = cons (key_of q) (keys_of qs)

module _ (lower upper : Text → Text) where
  abbrev KeyReads : ℕ → Type 0
  KeyReads f =
      (q : Query upper) (rest : List Token)
      → 2 * length (written q) ≤ suc f
      → parse_key lower upper f (written q ++ rest) ≡ (some (key_of q), rest)

  -- `tail` is what ends the list: nothing, or a closing parenthesis.
  abbrev ListReads : ℕ → Type 0
  ListReads f =
      (qs : Queries upper) (in_group : Bool) (tail rest : List Token) (spare : ℕ)
      (stop : (g : ℕ) → spare ≤ g → parse_key_list lower upper g in_group tail ≡ (nil, rest))
      → 2 * length (all_written qs) + spare ≤ f
      → parse_key_list lower upper f in_group (all_written qs ++ tail) ≡ (keys_of qs, rest)

  close :
      (rest : List Token) (g : ℕ)
      → 1 ≤ g
      → parse_key_list lower upper g true (rparen ∷ rest) ≡ (nil, rest)
  unfolding parse_key_list
  close rest zero a = absurd (omega (arith, a))
  close rest (suc g) a = refl

  key_reads : (f : ℕ) → KeyReads f → ListReads f → KeyReads (suc f)
  unfolding parse_key parse_atom_key written key_of str_key header_key next_arg
  key_reads f k l (flag w key e) rest a = rw e refl
  key_reads f k l (holds w key e s) rest a = rw e refl
  key_reads f k l (has_header w e name value) rest a = rw e refl
  key_reads f k l (not_query w e q) rest a = rw (e, k q rest (omega (arith, a))) refl
  key_reads f k l (or_query w e q r) rest a =
      let n = length-append (written q) (written r) in
      rw (e, append_assoc (written q) (written r) rest)
        (rw (k q (written r ++ rest) (omega (arith, a, n)))
          (rw (k r rest (omega (arith, a, n))) refl))
  key_reads f k l (group qs) rest a = rw (append_assoc (all_written qs) (rparen ∷ []) rest) (
      rw
        (l qs true (rparen ∷ rest) rest 1 (close rest)
          (omega (arith, a, length-append (all_written qs) (rparen ∷ []))))
        refl)

  list_step :
      (f : ℕ) (in_group : Bool) (q : Query upper) (rest : List Token)
      → parse_key_list lower upper (suc f) in_group (written q ++ rest)
        ≡ and_more
            (parse_key lower upper f (written q ++ rest))
            (parse_key_list lower upper f in_group)
  unfolding parse_key_list written
  list_step f g (flag w key e) rest = refl
  list_step f g (holds w key e s) rest = refl
  list_step f g (has_header w e name value) rest = refl
  list_step f g (not_query w e q) rest = refl
  list_step f g (or_query w e q r) rest = refl
  list_step f g (group qs) rest = refl

  some_written : (q : Query upper) → 1 ≤ length (written q)
  unfolding written
  some_written (flag w key e) = omega arith
  some_written (holds w key e s) = omega arith
  some_written (has_header w e name value) = omega arith
  some_written (not_query w e q) = omega arith
  some_written (or_query w e q r) = omega arith
  some_written (group qs) = omega arith

  list_reads : (f : ℕ) → KeyReads f → ListReads f → ListReads (suc f)
  unfolding all_written keys_of
  list_reads f k l no_more in_group tail rest spare stop a = stop (suc f) (omega (arith, a))
  list_reads f k l (more q qs) in_group tail rest spare stop a =
      let n = length-append (written q) (all_written qs) in
      rw (append_assoc (written q) (all_written qs) tail) (
        list_step f in_group q (all_written qs ++ tail)
        ∙ rw (k q (all_written qs ++ tail) (omega (arith, a, n)))
            (rw (l qs in_group tail rest spare stop (omega (arith, a, n, some_written q))) refl))

  nothing_reads : ListReads zero
  unfolding all_written keys_of
  nothing_reads no_more in_group tail rest spare stop a = stop 0 (omega (arith, a))
  nothing_reads (more q qs) in_group tail rest spare stop a =
      absurd (omega (arith, a, some_written q, length-append (written q) (all_written qs)))

  reads : (f : ℕ) → KeyReads f × ListReads f
  reads (suc f) = (key_reads f (reads f).0 (reads f).1, list_reads f (reads f).0 (reads f).1)
  reads zero = (λ q rest a. absurd (omega (arith, a, some_written q)), nothing_reads)

  ends : (f : ℕ) → 0 ≤ f → parse_key_list lower upper f false [] ≡ (nil, [])
  unfolding parse_key_list
  ends zero a = refl
  ends (suc f) a = refl

  -- A query that is written word for word, with groups, `OR`, `NOT`, headers and quoted arguments in
  -- any depth, is parsed to the key it stands for, given fuel for twice its tokens.
  pub parse_tokens-written :
      (queries : Queries upper) (fuel : ℕ) (enough : 2 * length (all_written queries) ≤ fuel)
      → parse_tokens lower upper fuel (all_written queries) ≡ fold_and (keys_of queries)
  unfolding parse_tokens
  parse_tokens-written queries fuel enough =
      let all = (reads fuel).1 queries false [] [] 0 ends (omega (arith, enough)) in
      rw (sym (append-nil (all_written queries))) (rw all refl)
