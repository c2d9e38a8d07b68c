-- ===== src/Search/Parse.antt =====
-- `parse` and the functions under it (crates/bridge/src/imap/search.rs). The index into the tokens is
-- the list of those that are left. `lower` and `upper` are `to_lowercase` and `to_uppercase`. The two
-- functions that call one another run on fuel; Fuel.antt says how much is enough.
use tutabridge.Prelude.{
  ℕ, zero, suc, ◌*◌, ◌^◌, Bool, true, false, Option, none, some, List, [], ◌∷◌, length,
  if◌then◌else◌,
}
use tutabridge.Prelude.Text.{Text, codes, same_text, parse_number}
use tutabridge.Search.Keys.{
  SeqSet, SearchKey, SearchKeys, all, seen, unseen, answered, unanswered, flagged, unflagged, draft,
  undraft, deleted, undeleted, recent, new, old, keyword, unkeyword, and, or, not_key, subject,
  from, to, cc, bcc, body, text, header, before, on, since, sent_before, sent_on, sent_since,
  larger, smaller, uid, sequence, nil, cons,
}
use tutabridge.Search.Dates.{parse_imap_date}
use tutabridge.Search.Tokens.{
  Token, lparen, rparen, atom, quoted, tokenize, is_seqset, parse_seqset,
}

-- What the word of a criterion asks the parser to do.
pub data Action : Type 0 where
  leaf skipping : SearchKey → Action
  either negation charset header_args uid_arg unknown : Action
  text_arg : (Text → SearchKey) → Action
  date_arg size_arg : (ℕ → SearchKey) → Action

abbrev keywords : List (Text × Action)
keywords =
    (codes "ALL", leaf all)
    ∷ (codes "ANSWERED", leaf answered)
    ∷ (codes "UNANSWERED", leaf unanswered)
    ∷ (codes "SEEN", leaf seen)
    ∷ (codes "UNSEEN", leaf unseen)
    ∷ (codes "FLAGGED", leaf flagged)
    ∷ (codes "UNFLAGGED", leaf unflagged)
    ∷ (codes "DELETED", leaf deleted)
    ∷ (codes "UNDELETED", leaf undeleted)
    ∷ (codes "DRAFT", leaf draft)
    ∷ (codes "UNDRAFT", leaf undraft)
    ∷ (codes "RECENT", leaf recent)
    ∷ (codes "NEW", leaf new)
    ∷ (codes "OLD", leaf old)
    ∷ (codes "OR", either)
    ∷ (codes "NOT", negation)
    ∷ (codes "CHARSET", charset)
    ∷ (codes "SUBJECT", text_arg subject)
    ∷ (codes "FROM", text_arg from)
    ∷ (codes "TO", text_arg to)
    ∷ (codes "CC", text_arg cc)
    ∷ (codes "BCC", text_arg bcc)
    ∷ (codes "BODY", text_arg body)
    ∷ (codes "TEXT", text_arg text)
    ∷ (codes "KEYWORD", skipping keyword)
    ∷ (codes "UNKEYWORD", skipping unkeyword)
    ∷ (codes "HEADER", header_args)
    ∷ (codes "BEFORE", date_arg before)
    ∷ (codes "ON", date_arg on)
    ∷ (codes "SINCE", date_arg since)
    ∷ (codes "SENTBEFORE", date_arg sent_before)
    ∷ (codes "SENTON", date_arg sent_on)
    ∷ (codes "SENTSINCE", date_arg sent_since)
    ∷ (codes "LARGER", size_arg larger)
    ∷ (codes "SMALLER", size_arg smaller)
    ∷ (codes "UID", uid_arg)
    ∷ []

look_up : Text → List (Text × Action) → Action
look_up key [] = unknown
look_up key (e ∷ es) = if same_text e.0 key then e.1 else look_up key es

unfoldable pub action_of : Text → Action
unfolding look_up
action_of key = look_up key keywords

unfoldable pub next_arg : List Token → Option Text × List Token
next_arg [] = (none, [])
next_arg (lparen ∷ ts) = (none, lparen ∷ ts)
next_arg (rparen ∷ ts) = (none, rparen ∷ ts)
next_arg (atom s ∷ ts) = (some s, ts)
next_arg (quoted s ∷ ts) = (some s, ts)

-- `unwrap_or_default` of a text.
abbrev pub or_empty : Option Text → Text
or_empty none = []
or_empty (some s) = s

abbrev pub or_all : Option SearchKey → SearchKey
or_all none = all
or_all (some k) = k

unfoldable pub str_key : (Text → SearchKey) → List Token → SearchKey × List Token
unfolding next_arg
str_key key ts = (key (or_empty (next_arg ts).0), (next_arg ts).1)

abbrev keyed : (ℕ → SearchKey) → Option ℕ → SearchKey
keyed key none = all
keyed key (some n) = key n

abbrev chain : (Text → Option ℕ) → Option Text → Option ℕ
chain f none = none
chain f (some s) = f s

unfoldable pub size_key : (ℕ → SearchKey) → List Token → SearchKey × List Token
unfolding next_arg
size_key key ts = (keyed key (chain (parse_number (2 ^ 64)) (next_arg ts).0), (next_arg ts).1)

abbrev set_of : Option Text → SeqSet
set_of none = []
set_of (some s) = parse_seqset s

unfoldable pub header_key : List Token → SearchKey × List Token
unfolding next_arg
header_key ts =
    let name = next_arg ts in
    let value = next_arg name.1 in (header (or_empty name.0) (or_empty value.0), value.1)

unfoldable pub date_key : (Text → Text) → (ℕ → SearchKey) → List Token → SearchKey × List Token
unfolding next_arg
date_key lower key ts = (keyed key (chain (parse_imap_date lower) (next_arg ts).0), (next_arg ts).1)

-- The last branch of `parse_atom_key`.
unfoldable pub other_key : Text → SearchKey
other_key word = if is_seqset word then sequence (parse_seqset word) else all

unfoldable pub fold_and : SearchKeys → SearchKey
fold_and nil = all
fold_and (cons k nil) = k
fold_and (cons k (cons l ks)) = and (cons k (cons l ks))

-- A group or the whole query, with the key that was just read and what reads those after it.
abbrev pub and_more :
    Option SearchKey × List Token → (List Token → SearchKeys × List Token) → SearchKeys × List Token
and_more (none, ts) more = (nil, ts)
and_more (some k, ts) more = (cons k (more ts).0, (more ts).1)

module _ (lower upper : Text → Text) where
  -- `parse_one` is `parse_key`.
  unfoldable pub parse_atom_key :
      (List Token → Option SearchKey × List Token)
      → Action
      → Text
      → List Token
      → SearchKey × List Token
  unfolding next_arg
  parse_atom_key parse_one (leaf key) word ts = (key, ts)
  parse_atom_key parse_one (skipping key) word ts = (key, (next_arg ts).1)
  parse_atom_key parse_one either word ts =
      let a = parse_one ts in let b = parse_one a.1 in (or (or_all a.0) (or_all b.0), b.1)
  parse_atom_key parse_one negation word ts = let a = parse_one ts in (not_key (or_all a.0), a.1)
  parse_atom_key parse_one charset word ts = let a = parse_one (next_arg ts).1 in (or_all a.0, a.1)
  parse_atom_key parse_one header_args word ts = header_key ts
  parse_atom_key parse_one uid_arg word ts = (uid (set_of (next_arg ts).0), (next_arg ts).1)
  parse_atom_key parse_one unknown word ts = (other_key word, ts)
  parse_atom_key parse_one (text_arg key) word ts = str_key key ts
  parse_atom_key parse_one (date_arg key) word ts = date_key lower key ts
  parse_atom_key parse_one (size_arg key) word ts = size_key key ts

  unfoldable mutual
    pub parse_key_list : ℕ → Bool → List Token → SearchKeys × List Token
    parse_key_list zero in_group ts = (nil, ts)
    parse_key_list (suc fuel) in_group [] = (nil, [])
    parse_key_list (suc fuel) true (rparen ∷ ts) = (nil, ts)
    parse_key_list (suc fuel) false (rparen ∷ ts) = parse_key_list fuel false ts
    parse_key_list (suc fuel) in_group (lparen ∷ ts) =
        and_more (parse_key fuel (lparen ∷ ts)) (parse_key_list fuel in_group)
    parse_key_list (suc fuel) in_group (atom s ∷ ts) =
        and_more (parse_key fuel (atom s ∷ ts)) (parse_key_list fuel in_group)
    parse_key_list (suc fuel) in_group (quoted s ∷ ts) =
        and_more (parse_key fuel (quoted s ∷ ts)) (parse_key_list fuel in_group)

    pub parse_key : ℕ → List Token → Option SearchKey × List Token
    parse_key zero ts = (none, ts)
    parse_key (suc fuel) [] = (none, [])
    parse_key (suc fuel) (rparen ∷ ts) = (none, ts)
    parse_key (suc fuel) (quoted s ∷ ts) = (some all, ts)
    parse_key (suc fuel) (lparen ∷ ts) =
        let keys = parse_key_list fuel true ts in (some (fold_and keys.0), keys.1)
    parse_key (suc fuel) (atom word ∷ ts) =
        let key = parse_atom_key (parse_key fuel) (action_of (upper word)) word ts in
        (some key.0, key.1)

  unfoldable pub parse_tokens : ℕ → List Token → SearchKey
  unfolding parse_key_list
  parse_tokens fuel tokens = fold_and (parse_key_list fuel false tokens).0

  unfoldable pub parse : Text → SearchKey
  unfolding parse_tokens
  parse args = parse_tokens (2 * length (tokenize args)) (tokenize args)
