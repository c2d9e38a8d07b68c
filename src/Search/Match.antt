-- ===== src/Search/Match.antt =====
-- `matches` and `collect_body_terms` (crates/bridge/src/imap/search.rs). `lower` is `to_lowercase`, and
-- `white` what `trim` takes off.
use tutabridge.Prelude.{
  ℕ, Bool, true, false, not, ◌&&◌, ◌||◌, String, none, some, List, [], ◌∷◌, ◌++◌, ltb, leb, ◌==◌,
  ◌=s◌, if◌then◌else◌, any,
}
use tutabridge.Prelude.Text.{Text, same_text, is_empty, contains, push, split_once, trim}
use tutabridge.Search.Keys.{
  SeqRange, SeqSet, SearchKey, SearchKeys, MsgView, SearchContext, all, seen, unseen, answered,
  unanswered, flagged, unflagged, draft, undraft, deleted, undeleted, recent, new, old, keyword,
  unkeyword, and, or, not_key, subject, from, to, cc, bcc, body, text, header, before, on, since,
  sent_before, sent_on, sent_since, larger, smaller, uid, sequence, nil, cons,
}
use tutabridge.Search.Dates.{lt_i64, day_number}

unfoldable pub in_range : ℕ → SeqRange → Bool
in_range value r = elim r.end [
  | none ↦ leb r.start value
  | some end ↦
      if leb r.start end
      then leb r.start value && leb value end
      else leb end value && leb value r.start
]

unfoldable pub contains_value : SeqSet → ℕ → Bool
unfolding in_range
contains_value set value = any (in_range value) set

abbrev hits : Text → SearchContext → List String
hits term [] = []
hits term (e ∷ es) = if same_text e.0 term then e.1 else hits term es

unfoldable pub body_matches : SearchContext → Text → String → Bool
body_matches ctx term eid = any (λ e. e =s eid) (hits term ctx)

-- `split("\r\n")`
unfoldable pub split_crlf : Text → List Text
split_crlf [] = [] ∷ []
split_crlf (c ∷ []) = (c ∷ []) ∷ []
split_crlf (c ∷ d ∷ s) =
    let behind = split_crlf s in
    let here = split_crlf (d ∷ s) in if c == 13 && d == 10 then [] ∷ behind else push c here

module _ (lower : Text → Text) (white : ℕ → Bool) where
  unfoldable pub contains_ci : Text → Text → Bool
  contains_ci haystack needle = is_empty needle || contains (lower haystack) (lower needle)

  unfoldable pub header_line : Text → Text → Text → Bool
  unfolding contains_ci
  header_line name value line = elim (split_once b':' line) [
    | none ↦ false
    | some (field, val) ↦
        same_text (lower (trim white field)) (lower name)
        && (is_empty value || contains_ci val value)
  ]

  unfoldable pub header_contains : Text → Text → Text → Bool
  unfolding header_line
  header_contains headers name value = any (header_line name value) (split_crlf headers)

  unfoldable mutual
    unfolding contains_value body_matches contains_ci header_contains day_number

    pub matches : SearchKey → MsgView → SearchContext → Bool
    matches all m ctx = true
    matches (and keys) m ctx = matches_all keys m ctx
    matches (or a b) m ctx = matches a m ctx || matches b m ctx
    matches (not_key k) m ctx = not (matches k m ctx)
    matches seen m ctx = not m.unread
    matches unseen m ctx = m.unread
    matches answered m ctx = false
    matches unanswered m ctx = true
    matches flagged m ctx = false
    matches unflagged m ctx = true
    matches draft m ctx = false
    matches undraft m ctx = true
    matches deleted m ctx = m.deleted
    matches undeleted m ctx = not m.deleted
    matches recent m ctx = false
    matches new m ctx = false
    matches old m ctx = true
    matches keyword m ctx = false
    matches unkeyword m ctx = true
    matches (subject s) m ctx = contains_ci m.subject s
    matches (from s) m ctx = contains_ci m.from s
    matches (to s) m ctx = contains_ci m.to s
    matches (cc s) m ctx = contains_ci m.cc s
    matches (bcc s) m ctx = contains_ci m.bcc s
    matches (body s) m ctx = body_matches ctx s m.element_id
    matches (text s) m ctx = contains_ci m.headers s || body_matches ctx s m.element_id
    matches (header name val) m ctx = header_contains m.headers name val
    matches (before d) m ctx = lt_i64 (day_number m.date_ms) d
    matches (on d) m ctx = day_number m.date_ms == d
    matches (since d) m ctx = not (lt_i64 (day_number m.date_ms) d)
    matches (sent_before d) m ctx = lt_i64 (day_number m.sent_ms) d
    matches (sent_on d) m ctx = day_number m.sent_ms == d
    matches (sent_since d) m ctx = not (lt_i64 (day_number m.sent_ms) d)
    matches (larger n) m ctx = ltb n m.size
    matches (smaller n) m ctx = ltb m.size n
    matches (uid set) m ctx = contains_value set m.uid
    matches (sequence set) m ctx = contains_value set m.seq

    pub matches_all : SearchKeys → MsgView → SearchContext → Bool
    matches_all nil m ctx = true
    matches_all (cons k ks) m ctx = matches k m ctx && matches_all ks m ctx

unfoldable mutual
  pub terms_of : SearchKey → List Text
  terms_of (and keys) = terms_of_all keys
  terms_of (or a b) = terms_of a ++ terms_of b
  terms_of (not_key k) = terms_of k
  terms_of (body s) = s ∷ []
  terms_of (text s) = s ∷ []
  terms_of _ = []

  pub terms_of_all : SearchKeys → List Text
  terms_of_all nil = []
  terms_of_all (cons k ks) = terms_of k ++ terms_of_all ks

-- The order of texts: by bytes, which is that of the code points.
pub lt_text : Text → Text → Bool
lt_text s [] = false
lt_text [] (b ∷ t) = true
lt_text (a ∷ s) (b ∷ t) = let rest = lt_text s t in if a == b then rest else ltb a b

-- `sort` and `dedup` in one: a term that is there already is not put in again.
unfoldable pub insert_term : Text → List Text → List Text
unfolding lt_text
insert_term t [] = t ∷ []
insert_term t (x ∷ xs) =
    let rest = insert_term t xs in
    if lt_text t x then t ∷ x ∷ xs else if same_text t x then x ∷ xs else x ∷ rest

unfoldable pub sort_terms : List Text → List Text
unfolding insert_term
sort_terms [] = []
sort_terms (t ∷ ts) = insert_term t (sort_terms ts)

unfoldable pub collect_body_terms : SearchKey → List Text
unfolding terms_of sort_terms
collect_body_terms key = sort_terms (terms_of key)
