-- ===== src/Search/Tests.antt =====
-- Queries that a client may send.
use tutabridge.Prelude.{◌^◌, ◌%◌, ◌≡◌, refl, arith, false, List, [], ◌∷◌, suc}
use tutabridge.Prelude.Text.{Text, codes, same_text}
use tutabridge.Search.Keys.{unseen, or, not_key, subject}
use tutabridge.Search.Tokens.{Token, lparen, rparen, atom}
use tutabridge.Search.Parse.{action_of, parse_tokens, parse_key_list, fold_and}
use tutabridge.Search.Dates.{days_from_civil}
use tutabridge.Search.Calendar.{next_day, month_length, is_leap, days_from_civil-next_day}
use tutabridge.Search.Fuel.{parse_tokens_ends}
use tutabridge.Search.Queries.{
  Queries, flag, holds, not_query, or_query, group, no_more, more, all_written, keys_of,
  parse_tokens-written,
}

abbrev lower : Text → Text
lower t = t

abbrev upper : Text → Text
upper t = t

abbrev stray : List Token
stray = rparen ∷ atom (codes "NOT") ∷ rparen ∷ lparen ∷ atom (codes "SEEN") ∷ []

parse_tokens_ends_example :
    (parse_tokens lower upper 99 stray ≡ parse_tokens lower upper 10 stray)
    × ((parse_key_list lower upper 99 false stray).1 ≡ [])
parse_tokens_ends_example = parse_tokens_ends lower upper 99 stray (omega arith)

-- OR UNSEEN (NOT SUBJECT "hi")
abbrev wanted : Queries upper
wanted =
    more
      (or_query (codes "OR") (unfold action_of same_text in refl)
        (flag (codes "UNSEEN") unseen (unfold action_of same_text in refl))
        (group (
          more
            (not_query (codes "NOT") (unfold action_of same_text in refl)
              (holds (codes "SUBJECT") subject (unfold action_of same_text in refl) (codes "hi")))
            no_more)))
      no_more

parse_tokens-written_example :
    parse_tokens lower upper 14 (all_written wanted) ≡ or unseen (not_key (subject (codes "hi")))
unfolding all_written keys_of fold_and
parse_tokens-written_example = parse_tokens-written lower upper wanted 14 (omega arith)

-- From the 28th to the 29th of February 2000.
days_from_civil_example : days_from_civil 2000 2 29 ≡ suc (days_from_civil 2000 2 28) % 2 ^ 64
unfolding next_day is_leap
days_from_civil_example =
    days_from_civil-next_day 2000 2 28 (omega arith) (omega arith)
      (unfold month_length is_leap in omega arith)
