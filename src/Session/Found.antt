-- ===== src/Session/Found.antt =====
-- What SEARCH answers, against the whole full-text index (crates/bridge/src/imap/session.rs).
use tutabridge.Prelude.{
  ℕ, zero, suc, ◌+◌, ◌^◌, ◌≤◌, ◌<◌, arith, ◌≡◌, refl, sym, ◌∙◌, Bool, true, false, Option, none,
  some, String, List, [], ◌∷◌, any, All, length, get_elem?, ◌==◌, ◌=s◌, Bool-cases, inl, inr,
}
use tutabridge.Prelude.Text.{Text, same_text, same_text_iff}
use tutabridge.Search.{SearchKey, SearchContext, matches, parse, collect_body_terms, body_matches}
use tutabridge.Search.Terms.{matches-collect_body_terms}
use tutabridge.Session.State.{ImapSession, CachedMail}
use tutabridge.Session.Commands.{is_selected}
use tutabridge.Session.Find.{
  Surroundings, build_search_view, hits_of, on_index, resolve_body_search, found_from, cmd_search,
}

abbrev Agrees : SearchContext → SearchContext → Text → Type 0
Agrees ctx other term = (eid : String) → body_matches other term eid ≡ body_matches ctx term eid

-- An index that never fails gives for the asked terms what any context gives that answers like it.
module _ (index : Text → List String) where
  abbrev pub Answers : SearchContext → Text → Type 0
  Answers ctx term =
      (eid : String) → body_matches ctx term eid ≡ any (λ found. found =s eid) (index term)

  skip_hits :
      (asked term : Text) (terms : List Text) (eid : String)
      → same_text asked term ≡ false
      → body_matches (hits_of (λ t. some (index t)) (asked ∷ terms)) term eid
        ≡ body_matches (hits_of (λ t. some (index t)) terms) term eid
  unfolding hits_of body_matches
  skip_hits asked term terms eid h = rw h refl

  first_hits :
      (term : Text) (terms : List Text)
      → Answers (hits_of (λ t. some (index t)) (term ∷ terms)) term
  unfolding hits_of body_matches
  first_hits term terms eid = rw ((same_text_iff term term).1 refl) refl

  module _ (ctx : SearchContext) where
    more_agree :
        (asked : Text) (terms some_terms : List Text)
        → Answers ctx asked
        → All (Agrees ctx (hits_of (λ t. some (index t)) terms)) some_terms
        → All (Agrees ctx (hits_of (λ t. some (index t)) (asked ∷ terms))) some_terms
    more_agree asked terms [] a h = tt
    more_agree asked terms (term ∷ some_terms) a (h, hs) = (
      elim (Bool-cases (same_text asked term)) [
        | inl e ↦ λ eid.
            rw (sym ((same_text_iff asked term).0 e)) (rw (first_hits asked terms eid, a eid) refl)
        | inr e ↦ λ eid. rw (skip_hits asked term terms eid e) (h eid)
      ],
      more_agree asked terms some_terms a hs,
    )

    hits_agree :
        (terms : List Text)
        → All (Answers ctx) terms
        → All (Agrees ctx (hits_of (λ t. some (index t)) terms)) terms
    hits_agree [] h = tt
    hits_agree (term ∷ terms) (a, h) = (
      λ eid. rw (first_hits term terms eid, a eid) refl,
      more_agree term terms terms a (hits_agree terms h),
    )

module _ (e : Surroundings) where
  abbrev pub is_found : SearchKey → SearchContext → ℕ → Option CachedMail → Bool
  is_found query ctx idx none = false
  is_found query ctx idx (some cached) =
      matches e.lower e.white query (build_search_view e idx cached) ctx

  abbrev pub names : ℕ → List ℕ → Bool
  names n ids = any (λ id. id == n) ids

  abbrev pub names_some : ℕ → Option (List ℕ) → Bool
  names_some n none = false
  names_some n (some ids) = names n ids

  -- Numbers of earlier positions are not answered.
  no_earlier :
      (query : SearchKey) (ctx : SearchContext) (idx n : ℕ) (mails : List CachedMail)
      → n ≤ idx
      → idx + length mails < 2 ^ 32
      → names n (found_from e query ctx false idx mails) ≡ false
  unfolding found_from
  no_earlier query ctx idx n [] h k = refl
  no_earlier query ctx idx n (cached ∷ mails) h k =
      ground (arith, h, k, no_earlier query ctx (suc idx) n mails)

  found_from-names :
      (query : SearchKey) (ctx : SearchContext) (idx i : ℕ) (mails : List CachedMail)
      → idx + length mails < 2 ^ 32
      → names (suc (idx + i)) (found_from e query ctx false idx mails)
        ≡ is_found query ctx (idx + i) (get_elem? mails i)
  unfolding found_from
  found_from-names query ctx idx i [] h = refl
  found_from-names query ctx idx zero (cached ∷ mails) h =
      let here : idx + 0 ≡ idx = omega arith in
      rw here (ground (arith, h, no_earlier query ctx (suc idx) (suc idx) mails))
  found_from-names query ctx idx (suc i) (cached ∷ mails) h =
      let next : idx + suc i ≡ suc idx + i = omega arith in
      rw next (ground (arith, h, found_from-names query ctx (suc idx) i mails))

  at_position :
      (query : SearchKey) (ctx : SearchContext) (idx i k : ℕ) (mails : List CachedMail)
      → idx + length mails < 2 ^ 32
      → idx + i ≡ k
      → names (suc k) (found_from e query ctx false idx mails)
        ≡ is_found query ctx k (get_elem? mails i)
  at_position query ctx idx i k mails h same =
      rw (sym same) (found_from-names query ctx idx i mails h)

  from_first :
      (query : SearchKey) (ctx : SearchContext) (i : ℕ) (mails : List CachedMail)
      → length mails < 2 ^ 32
      → names (suc i) (found_from e query ctx false 0 mails)
        ≡ is_found query ctx i (get_elem? mails i)
  from_first query ctx i mails h =
      at_position query ctx 0 i i mails (omega (arith, h)) (omega arith)

  resolved :
      (index : Text → List String) (has_index : e.search_body ≡ some (λ t. some (index t)))
      (terms : List Text)
      → on_index e.search_body terms ≡ hits_of (λ t. some (index t)) terms
  resolved index has terms = rw has refl

  same_found :
      (query : SearchKey) (asked ctx : SearchContext) (i : ℕ) (at : Option CachedMail)
      → All (Agrees ctx asked) (collect_body_terms query)
      → is_found query asked i at ≡ is_found query ctx i at
  same_found query asked ctx i none h = refl
  same_found query asked ctx i (some cached) h =
      matches-collect_body_terms e.lower e.white (build_search_view e i cached) asked ctx query h

  -- With an index that does not fail, SEARCH in a selected mailbox answers the number of a position
  -- exactly if the mail there matches the query, BODY and TEXT terms being looked up in `ctx`, which
  -- answers each of them as the index does, as long as the positions fit 32 bits.
  pub cmd_search_lem :
      (index : Text → List String) (has_index : e.search_body ≡ some (λ t. some (index t)))
      (args : Text) (s : ImapSession) (selected : is_selected s.state ≡ true)
      (numbered : length s.mails < 2 ^ 32) (ctx : SearchContext)
      (answers : All (Answers index ctx) (collect_body_terms (parse e.lower e.upper args))) (i : ℕ)
      → names_some (suc i) (cmd_search e args false s)
        ≡ is_found (parse e.lower e.upper args) ctx i (get_elem? s.mails i)
  unfolding cmd_search resolve_body_search
  cmd_search_lem index has args s selected numbered ctx answers i =
      let query = parse e.lower e.upper args in
      let terms = collect_body_terms query in
      let asked = hits_of (λ t. some (index t)) terms in
      rw (selected, resolved index has terms)
        (from_first query asked i s.mails numbered
          ∙ same_found query asked ctx i (get_elem? s.mails i) (hits_agree index ctx terms answers))
