-- ===== src/Session/Expunges.antt =====
-- The numbers that EXPUNGE lines carry (crates/bridge/src/imap/session.rs), against a client that
-- takes each named mail out of its own list.
use tutabridge.Prelude.{
  ℕ, zero, suc, ◌+◌, ◌<◌, ◌≡◌, refl, ap, Bool, not, List, [], ◌∷◌, ◌++◌, arith, append_assoc, keep,
  length, length-append, All, All-mono,
}
use tutabridge.Session.State.{CachedMail}
use tutabridge.Session.Sets.{expunge_from, departed_from, sort_desc, insert_desc}

-- The list without its n-th element, counted from 1.
pub remove_nth : ℕ → List CachedMail → List CachedMail
remove_nth n [] = []
remove_nth zero (m ∷ ms) = m ∷ ms
remove_nth (suc zero) (m ∷ ms) = ms
remove_nth (suc (suc n)) (m ∷ ms) = m ∷ remove_nth (suc n) ms

-- What a client makes of a sequence of EXPUNGE lines.
unfoldable pub replay : List ℕ → List CachedMail → List CachedMail
unfolding remove_nth
replay [] view = view
replay (n ∷ ns) view = replay ns (remove_nth n view)

remove_nth-append :
    (before : List CachedMail) (m : CachedMail) (ms : List CachedMail)
    → remove_nth (suc (length before)) (before ++ m ∷ ms) ≡ before ++ ms
unfolding remove_nth
remove_nth-append [] m ms = refl
remove_nth-append (b ∷ bs) m ms = ap (λ rest. b ∷ rest) (remove_nth-append bs m ms)

length-snoc :
    (before : List CachedMail) (m : CachedMail) → length (before ++ m ∷ []) ≡ suc (length before)
length-snoc before m = omega (arith, length-append before (m ∷ []))

module _ (goes : CachedMail → Bool) where
  pub expunge_from-replay :
      (seq : ℕ) (before mails : List CachedMail)
      → seq ≡ suc (length before)
      → replay (expunge_from goes seq mails).0 (before ++ mails)
        ≡ before ++ (expunge_from goes seq mails).1
  unfolding expunge_from replay
  expunge_from-replay seq before [] e = refl
  expunge_from-replay seq before (m ∷ ms) e = ground (
    arith,
    remove_nth-append before m ms,
    expunge_from-replay seq before ms e,
    expunge_from-replay (suc seq) (before ++ m ∷ []) ms,
    length-snoc before m,
    append_assoc before (m ∷ []) ms,
    append_assoc before (m ∷ []) (expunge_from goes (suc seq) ms).1,
  )

  pub expunge_from-keep :
      (seq : ℕ) (mails : List CachedMail)
      → (expunge_from goes seq mails).1 ≡ keep (λ m. not (goes m)) mails
  unfolding expunge_from
  expunge_from-keep seq [] = refl
  expunge_from-keep seq (m ∷ ms) =
      ground (arith, expunge_from-keep seq ms, expunge_from-keep (suc seq) ms)

  departed_from-above :
      (idx : ℕ) (mails : List CachedMail) → All (λ n. idx < n) (departed_from goes idx mails)
  unfolding departed_from
  departed_from-above idx [] = tt
  departed_from-above idx (m ∷ ms) =
      let later : (All (λ n. idx < n) (departed_from goes (idx + 1) ms)) =
        All-mono (λ n. idx + 1 < n) (λ n. idx < n) (λ n h. omega arith)
          (departed_from goes (idx + 1) ms) (departed_from-above (idx + 1) ms) in
      ground arith

  insert_desc-last : (n : ℕ) (ns : List ℕ) → All (λ k. n < k) ns → insert_desc n ns ≡ ns ++ n ∷ []
  unfolding insert_desc
  insert_desc-last n [] h = refl
  insert_desc-last n (k ∷ ks) h = ground (arith, insert_desc-last n ks)

  insert_desc-All :
      (i n : ℕ) (ns : List ℕ) → i < n → All (λ k. i < k) ns → All (λ k. i < k) (insert_desc n ns)
  unfolding insert_desc
  insert_desc-All i n [] h k = (h, tt)
  insert_desc-All i n (x ∷ xs) h k = ground (arith, insert_desc-All i n xs h k.1)

  sort_desc-All : (i : ℕ) (ns : List ℕ) → All (λ k. i < k) ns → All (λ k. i < k) (sort_desc ns)
  unfolding sort_desc
  sort_desc-All i [] h = tt
  sort_desc-All i (n ∷ ns) h = insert_desc-All i n (sort_desc ns) h.0 (sort_desc-All i ns h.1)

  replay-append :
      (ns : List ℕ) (n : ℕ) (view : List CachedMail)
      → replay (ns ++ n ∷ []) view ≡ remove_nth n (replay ns view)
  unfolding replay
  replay-append [] n view = refl
  replay-append (k ∷ ns) n view = replay-append ns n (remove_nth k view)

  pub departed_from-replay :
      (idx : ℕ) (before mails : List CachedMail)
      → idx ≡ length before
      → replay (sort_desc (departed_from goes idx mails)) (before ++ mails)
        ≡ before ++ keep (λ m. not (goes m)) mails
  unfolding departed_from sort_desc replay
  departed_from-replay idx before [] e = refl
  departed_from-replay idx before (m ∷ ms) e =
      let next = departed_from goes (idx + 1) ms in
      ground (
        arith,
        departed_from-replay (idx + 1) (before ++ m ∷ []) ms,
        length-snoc before m,
        append_assoc before (m ∷ []) ms,
        append_assoc before (m ∷ []) (keep (λ x. not (goes x)) ms),
        insert_desc-last (idx + 1) (sort_desc next)
            (sort_desc-All (idx + 1) next (departed_from-above (idx + 1) ms)),
        replay-append (sort_desc next) (idx + 1) (before ++ m ∷ ms),
        remove_nth-append before m (keep (λ x. not (goes x)) ms),
      )
