-- ===== src/Session/Answers.antt =====
-- What FETCH answers and leaves (`cmd_fetch` of crates/bridge/src/imap/session.rs).
use tutabridge.Prelude.{
  ℕ, zero, suc, ◌+◌, ◌≡◌, refl, ap, ◌∙◌, subst, Bool, true, false, Option, none, some, List, [],
  ◌∷◌, get_elem?, length, keep, All, any, ◌==◌, arith, Bool-cases, inl, inr,
}
use tutabridge.Prelude.Text.{Text}
use tutabridge.Model.{Mail, MailDetails, FolderInfo}
use tutabridge.MailStore.{element_id}
use tutabridge.Wire.{needs_body}
use tutabridge.Mime.Library.{Library}
use tutabridge.Mime.Render.{TutanotaFile}
use tutabridge.Session.State.{CachedMail}
use tutabridge.Session.Commands.{change_at}
use tutabridge.Session.Fetch.{
  Outside, Progress, Ensured, ready, unavailable, Answer, answered, refused, with_line, mark_loaded,
  available, cooling, with_files, with_details, load_body, ensure_body, on_ensured, fetch_at,
  fetch_each, response_at, reread,
}

abbrev pub is_mail : Option CachedMail → Bool
is_mail none = false
is_mail (some m) = true

abbrev pub has_mail : List CachedMail → ℕ → Bool
has_mail ms j = is_mail (get_elem? ms j)

-- There is no mail, or its body is there.
abbrev is_loaded : Option CachedMail → Bool
is_loaded none = true
is_loaded (some m) = m.body_loaded

abbrev pub loaded_at : List CachedMail → ℕ → Bool
loaded_at ms j = is_loaded (get_elem? ms j)

abbrev loaded : CachedMail → CachedMail
loaded m = record m { body_loaded = true }

has_mail-change_at :
    (js : List ℕ) (i : ℕ) (ms : List CachedMail) (j : ℕ)
    → has_mail (change_at loaded js i ms) j ≡ has_mail ms j
unfolding change_at
has_mail-change_at js i [] j = refl
has_mail-change_at js i (m ∷ ms) zero = refl
has_mail-change_at js i (m ∷ ms) (suc j) = has_mail-change_at js (suc i) ms j

loaded_at-change_at :
    (js : List ℕ) (i : ℕ) (ms : List CachedMail) (j : ℕ)
    → loaded_at ms j ≡ true
    → loaded_at (change_at loaded js i ms) j ≡ true
unfolding change_at
loaded_at-change_at js i [] j h = refl
loaded_at-change_at js i (m ∷ ms) zero h = elim (Bool-cases (any (λ k. k == i) js)) [
  | inl e ↦ rw e refl
  | inr e ↦ rw e h
]
loaded_at-change_at js i (m ∷ ms) (suc j) h = loaded_at-change_at js (suc i) ms j h

loaded_at-changed :
    (idx i : ℕ) (ms : List CachedMail) (j : ℕ)
    → idx ≡ i + j
    → loaded_at (change_at loaded (idx ∷ []) i ms) j ≡ true
unfolding change_at
loaded_at-changed idx i [] j h = refl
loaded_at-changed idx i (m ∷ ms) zero h = let e : (idx == i) ≡ true = ground (arith, h) in rw e refl
loaded_at-changed idx i (m ∷ ms) (suc j) h = loaded_at-changed idx (suc i) ms j (omega (arith, h))

-- The list of mails keeps its length and what is loaded, and the body at the index is there.
abbrev Follows : ℕ → List CachedMail → List CachedMail → Type 0
Follows idx ms ns =
    ((j : ℕ) → has_mail ns j ≡ has_mail ms j)
    × ((j : ℕ) → loaded_at ms j ≡ true → loaded_at ns j ≡ true)
    × (loaded_at ns idx ≡ true)

Follows-mark : (idx : ℕ) (ms : List CachedMail) → Follows idx ms (mark_loaded idx ms)
Follows-mark idx ms = (
  has_mail-change_at (idx ∷ []) 0 ms,
  loaded_at-change_at (idx ∷ []) 0 ms,
  loaded_at-changed idx 0 ms idx (omega arith),
)

abbrev Prepared : ℕ → Progress → Ensured → Type 0
Prepared idx p (ready q) = Follows idx p.mails q.mails
Prepared idx p (unavailable reason q) = Unit

-- What an answer to the given indices shows of them.
abbrev Shows : List CachedMail → List ℕ → List Text → Progress → Type 0
Shows ms is ts q =
    (length ts ≡ length (keep (has_mail ms) is))
    × All (λ j. loaded_at q.mails j ≡ true) is
    × ((j : ℕ) → loaded_at ms j ≡ true → loaded_at q.mails j ≡ true)

-- For an answer that is not a refusal.
abbrev ShowsAll : List CachedMail → List ℕ → Answer → Type 0
ShowsAll ms is (answered ts q) = Shows ms is ts q
ShowsAll ms is (refused reason q) = Unit

keep-same :
    (f g : ℕ → Bool)
    → ((j : ℕ) → f j ≡ g j)
    → (is : List ℕ) → length (keep f is) ≡ length (keep g is)
keep-same f g h [] = refl
keep-same f g h (i ∷ is) = ground (arith, h i, keep-same f g h is)

with_line-ShowsAll :
    (idx : ℕ) (is : List ℕ) (ms ns : List CachedMail) (t : Text) (a : Answer)
    → has_mail ms idx ≡ true
    → Follows idx ms ns
    → ShowsAll ns is a
    → ShowsAll ms (idx ∷ is) (with_line t a)
with_line-ShowsAll idx is ms ns t (answered ts q) e f (n, l, m) = (
  rw e (ap suc (n ∙ keep-same (has_mail ns) (has_mail ms) f.0 is)),
  (m idx f.2, l),
  λ j h. m j (f.1 j h),
)
with_line-ShowsAll idx is ms ns t (refused reason q) e f s = tt

skipped-ShowsAll :
    (idx : ℕ) (is : List ℕ) (ms : List CachedMail) (a : Answer)
    → get_elem? ms idx ≡ none
    → ShowsAll ms is a
    → ShowsAll ms (idx ∷ is) a
skipped-ShowsAll idx is ms (answered ts q) e (n, l, m) =
    (let g : has_mail ms idx ≡ false = ap is_mail e in rw g n, (m idx (ap is_loaded e), l), m)
skipped-ShowsAll idx is ms (refused reason q) e s = tt

module _ (lib : Library) (out : Outside) (folder : Option FolderInfo) where
  with_files-Prepared :
      (idx : ℕ) (mail : Mail) (d : Option MailDetails) (fs : Option (List TutanotaFile))
      (p : Progress)
      → Prepared idx p (with_files lib out folder idx mail d fs p)
  with_files-Prepared idx mail d none p = tt
  with_files-Prepared idx mail d (some fs) p = Follows-mark idx p.mails

  with_details-Prepared :
      (idx : ℕ) (mail : Mail) (d : Option (Option MailDetails)) (p : Progress)
      → Prepared idx p (with_details lib out folder idx mail d p)
  with_details-Prepared idx mail none p = tt
  with_details-Prepared idx mail (some d) p =
      with_files-Prepared idx mail d (out.load_attachments mail) p

  load_body-Prepared :
      (idx : ℕ) (mail : Mail) (p : Progress) → Prepared idx p (load_body lib out folder idx mail p)
  unfolding load_body
  load_body-Prepared idx mail p = elim (Bool-cases (available out p (element_id mail))) [
    | inl a ↦ rw a (Follows-mark idx p.mails)
    | inr a ↦ elim (Bool-cases (cooling out (element_id mail))) [
      | inl c ↦ rw (a, c) tt
      | inr c ↦
          rw (a, c)
            (with_details-Prepared idx mail (out.load_mail_details mail)
              (record p { requested = mail ∷ p.requested }))
    ]
  ]

  ensure_body-Prepared :
      (idx : ℕ) (m : CachedMail) (items : Text) (p : Progress)
      → needs_body lib.white items ≡ true
      → get_elem? p.mails idx ≡ some m
      → Prepared idx p (ensure_body lib out folder idx m items p)
  unfolding ensure_body
  ensure_body-Prepared idx m items p n e = elim (Bool-cases m.body_loaded) [
    | inl b ↦ rw (n, b) ((λ j. refl), (λ j h. h), ap is_loaded e ∙ b)
    | inr b ↦ rw (n, b) (load_body-Prepared idx m.mail p)
  ]

  module _ (items : Text) (uid_mode : Bool) (asks : needs_body lib.white items ≡ true) where
    on_ensured-ShowsAll :
        (idx : ℕ) (is : List ℕ) (m : CachedMail) (p : Progress) (x : Ensured)
        → has_mail p.mails idx ≡ true
        → Prepared idx p x
        → ((q : Progress) → ShowsAll q.mails is (fetch_each lib out folder is items uid_mode q))
        → ShowsAll p.mails (idx ∷ is) (
            on_ensured lib out folder
              (fetch_each lib out folder is items uid_mode)
              idx
              items
              uid_mode
              m
              x)
    on_ensured-ShowsAll idx is m p (ready q) e f h =
        with_line-ShowsAll idx is p.mails q.mails
          (response_at lib out folder idx (reread lib out folder idx m q) items uid_mode q)
          (fetch_each lib out folder is items uid_mode q) e f (h q)
    on_ensured-ShowsAll idx is m p (unavailable reason q) e f h = tt

    fetch_at-ShowsAll :
        (idx : ℕ) (is : List ℕ) (p : Progress) (o : Option CachedMail)
        → get_elem? p.mails idx ≡ o
        → ((q : Progress) → ShowsAll q.mails is (fetch_each lib out folder is items uid_mode q))
        → ShowsAll p.mails (idx ∷ is) (
            fetch_at lib out folder
              (fetch_each lib out folder is items uid_mode)
              idx
              items
              uid_mode
              p
              o)
    fetch_at-ShowsAll idx is p none e h =
        skipped-ShowsAll idx is p.mails (fetch_each lib out folder is items uid_mode p) e (h p)
    fetch_at-ShowsAll idx is p (some m) e h =
        on_ensured-ShowsAll idx is m p (ensure_body lib out folder idx m items p) (ap is_mail e)
          (ensure_body-Prepared idx m items p asks e) h

    fetch_each-ShowsAll :
        (is : List ℕ) (p : Progress)
        → ShowsAll p.mails is (fetch_each lib out folder is items uid_mode p)
    unfolding fetch_each
    fetch_each-ShowsAll [] p = (refl, tt, λ j h. h)
    fetch_each-ShowsAll (idx ∷ is) p =
        fetch_at-ShowsAll idx is p (get_elem? p.mails idx) refl (fetch_each-ShowsAll is)

    -- A FETCH of bodies that is not refused answers with one line for each index that has a mail, and
    -- leaves the mail at each of them with its body loaded.
    pub fetch_each_lem :
        (is : List ℕ) (p q : Progress) (ts : List Text)
        → fetch_each lib out folder is items uid_mode p ≡ answered ts q
        → (length ts ≡ length (keep (has_mail p.mails) is))
          × All (λ j. loaded_at q.mails j ≡ true) is
    fetch_each_lem is p q ts h =
        let s : ShowsAll p.mails is (answered ts q) =
          subst (ShowsAll p.mails is) h (fetch_each-ShowsAll is p) in
        (s.0, s.1)
