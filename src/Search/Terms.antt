-- ===== src/Search/Terms.antt =====
-- `collect_body_terms` against `matches` (crates/bridge/src/imap/search.rs): the session asks the index
-- for the collected terms only.
use tutabridge.Prelude.{
  ℕ, Bool, true, false, String, List, [], ◌∷◌, ◌++◌, if◌then◌else◌, All, ◌≡◌, refl,
}
use tutabridge.Prelude.Text.{Text, same_text, same_text_iff}
use tutabridge.Search.Keys.{
  SearchKey, SearchKeys, MsgView, SearchContext, all, seen, unseen, answered, unanswered, flagged,
  unflagged, draft, undraft, deleted, undeleted, recent, new, old, keyword, unkeyword, and, or,
  not_key, subject, from, to, cc, bcc, body, text, header, before, on, since, sent_before, sent_on,
  sent_since, larger, smaller, uid, sequence, nil, cons,
}
use tutabridge.Search.Match.{
  matches, matches_all, body_matches, terms_of, terms_of_all, insert_term, sort_terms, lt_text,
  collect_body_terms,
}

module _ (P : Text → Type 0) where
  All-parts : (xs ys : List Text) → All P (xs ++ ys) → All P xs × All P ys
  All-parts [] ys h = (tt, h)
  All-parts (x ∷ xs) ys (p, h) = ((p, (All-parts xs ys h).0), (All-parts xs ys h).1)

  All-branch :
      (before_it same_one : Bool) (t x : Text) (xs rest : List Text)
      → (same_one ≡ true → t ≡ x)
      → (All P rest → P t × All P xs)
      → All P (if before_it then t ∷ x ∷ xs else if same_one then x ∷ xs else x ∷ rest)
      → P t × All P (x ∷ xs)
  All-branch true b t x xs rest e ih h = h
  All-branch false true t x xs rest e ih (p, h) = (rw (e refl) p, (p, h))
  All-branch false false t x xs rest e ih (p, h) = ((ih h).0, (p, (ih h).1))

  All-insert_term : (t : Text) (xs : List Text) → All P (insert_term t xs) → P t × All P xs
  unfolding insert_term
  All-insert_term t [] h = h
  All-insert_term t (x ∷ xs) h =
      All-branch (lt_text t x) (same_text t x) t x xs (insert_term t xs) (same_text_iff t x).0
        (All-insert_term t xs) h

  All-sort_terms : (ts : List Text) → All P (sort_terms ts) → All P ts
  unfolding sort_terms
  All-sort_terms [] h = tt
  All-sort_terms (t ∷ ts) h =
      let parts = All-insert_term t (sort_terms ts) h in (parts.0, All-sort_terms ts parts.1)

module _ (lower : Text → Text) (white : ℕ → Bool) (m : MsgView) (ctx other : SearchContext) where
  abbrev pub Agree : Text → Type 0
  Agree term = (eid : String) → body_matches ctx term eid ≡ body_matches other term eid

  mutual
    unfolding matches terms_of

    same :
        (k : SearchKey)
        → All Agree (terms_of k)
        → matches lower white k m ctx ≡ matches lower white k m other
    same (and keys) h = same_keys keys h
    same (or a b) h =
        let parts = All-parts Agree (terms_of a) (terms_of b) h in
        rw (same a parts.0, same b parts.1) refl
    same (not_key k) h = rw (same k h) refl
    same (body s) h = h.0 m.element_id
    same (text s) h = rw (h.0 m.element_id) refl
    same all h = refl
    same seen h = refl
    same unseen h = refl
    same answered h = refl
    same unanswered h = refl
    same flagged h = refl
    same unflagged h = refl
    same draft h = refl
    same undraft h = refl
    same deleted h = refl
    same undeleted h = refl
    same recent h = refl
    same new h = refl
    same old h = refl
    same keyword h = refl
    same unkeyword h = refl
    same (subject x) h = refl
    same (from x) h = refl
    same (to x) h = refl
    same (cc x) h = refl
    same (bcc x) h = refl
    same (before x) h = refl
    same (on x) h = refl
    same (since x) h = refl
    same (sent_before x) h = refl
    same (sent_on x) h = refl
    same (sent_since x) h = refl
    same (larger x) h = refl
    same (smaller x) h = refl
    same (uid x) h = refl
    same (sequence x) h = refl
    same (header name x) h = refl

    same_keys :
        (ks : SearchKeys)
        → All Agree (terms_of_all ks)
        → matches_all lower white ks m ctx ≡ matches_all lower white ks m other
    same_keys nil h = refl
    same_keys (cons k ks) h =
        let parts = All-parts Agree (terms_of k) (terms_of_all ks) h in
        rw (same k parts.0, same_keys ks parts.1) refl

  -- Whether a message matches a query depends on the index for the collected terms alone: two contexts
  -- that agree on each of them give the same result.
  pub matches-collect_body_terms :
      (key : SearchKey) (agree : All Agree (collect_body_terms key))
      → matches lower white key m ctx ≡ matches lower white key m other
  unfolding collect_body_terms
  matches-collect_body_terms key agree = same key (All-sort_terms Agree (terms_of key) agree)
