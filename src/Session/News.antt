-- ===== src/Session/News.antt =====
-- The EXPUNGE lines of the commands and of the news of the store, as a client reads them
-- (crates/bridge/src/imap/session.rs).
use tutabridge.Prelude.{
  ℕ, ◌≡◌, refl, sym, String, Bool, true, false, not, ◌&&◌, List, [], ◌∷◌, ◌++◌, arith, map,
  append-nil, ◌+◌, ◌⊎◌, keep, length, any, if◌then◌else◌, Bool-cases, Option-cases, inl, inr, ◌==◌,
}
use tutabridge.Model.{IdTuple, FolderInfo}
use tutabridge.MailStore.{MailStore, get_folder, folder_by_imap_path}
use tutabridge.Session.State.{
  CachedMail, ImapSession, Line, ok, expunge, exists, Call, move_mails, answer, refresh_mails,
}
use tutabridge.Session.Sets.{Part, expunge_from, departed_from, sort_desc}
use tutabridge.Session.Commands.{is_selected}
use tutabridge.Session.Removal.{
  leave, request, is_among, move_to, cmd_expunge, cmd_move, has_departed, check_folder, is_added,
  is_empty,
}
use tutabridge.Session.Expunges.{replay, expunge_from-replay, departed_from-replay}

-- The numbers of the EXPUNGE lines.
pub expunged : List Line → List ℕ
expunged [] = []
expunged (expunge n ∷ lines) = n ∷ expunged lines
expunged (_ ∷ lines) = expunged lines

expunged-append :
    (ns : List ℕ) (lines : List Line) → expunged (map expunge ns ++ lines) ≡ ns ++ expunged lines
unfolding expunged
expunged-append [] lines = refl
expunged-append (n ∷ ns) lines = ground (arith, expunged-append ns lines)

leave-replay :
    (goes : CachedMail → Bool) (tag : String) (calls : List Call) (s : ImapSession)
    → replay (expunged (leave goes tag calls s).lines) s.mails
      ≡ (leave goes tag calls s).session.mails
unfolding expunged
leave-replay goes tag calls s =
    rw (expunged-append (expunge_from goes 1 s.mails).0 (ok tag ∷ []))
      (rw (append-nil (expunge_from goes 1 s.mails).0) (expunge_from-replay goes 1 [] s.mails refl))

request-replay :
    (accepted : Call → Bool) (ids : List IdTuple) (call : Call) (goes : CachedMail → Bool)
    (tag : String) (s : ImapSession)
    → let r = request accepted ids call (λ calls. leave goes tag calls s) s tag in
      replay (expunged r.lines) s.mails ≡ r.session.mails
unfolding request
request-replay accepted [] call goes tag s = leave-replay goes tag [] s
request-replay accepted (id ∷ ids) call goes tag s = elim (Bool-cases (accepted call)) [
  | inl a ↦ rw (a, request) (leave-replay goes tag (call ∷ []) s)
  | inr a ↦ rw (a, request) (unfold expunged replay in refl)
]

-- A client that takes out of its list what the lines of EXPUNGE name, one after the other, is left
-- with the list of the session, whether or not a mailbox is selected and the server agrees.
pub cmd_expunge-replay :
    (accepted : Call → Bool) (tag : String) (s : ImapSession)
    → let r = cmd_expunge accepted tag s in replay (expunged r.lines) s.mails ≡ r.session.mails
unfolding cmd_expunge
cmd_expunge-replay accepted tag s = elim (Bool-cases (is_selected s.state)) [
  | inl a ↦ rw (a, cmd_expunge) (request-replay accepted _ _ (λ m. m.deleted) tag s)
  | inr a ↦ rw (a, cmd_expunge) (unfold expunged replay in refl)
]

move_to-replay :
    (accepted : Call → Bool) (tag : String) (ids : List IdTuple) (target : FolderInfo)
    (s : ImapSession)
    → let r = move_to accepted tag ids target s in
      replay (expunged r.lines) s.mails ≡ r.session.mails
unfolding move_to
move_to-replay accepted tag [] target s = unfold expunged replay in refl
move_to-replay accepted tag (id ∷ ids) target s =
    request-replay accepted (id ∷ ids) (move_mails (id ∷ ids) target) (is_among (id ∷ ids)) tag s

-- The same of MOVE, also when the mailbox does not exist or the set names no mail.
pub cmd_move-replay :
    (same_path : String → String → Bool) (store : MailStore) (accepted : Call → Bool) (tag : String)
    (set : List Part) (name : String) (uid_mode : Bool) (s : ImapSession)
    → let r = cmd_move same_path store accepted tag set name uid_mode s in
      replay (expunged r.lines) s.mails ≡ r.session.mails
unfolding cmd_move
cmd_move-replay same_path store accepted tag set name uid_mode s =
    elim (Bool-cases (is_selected s.state)) [
      | inr a ↦ rw (a, cmd_move) (unfold expunged replay in refl)
      | inl a ↦ elim (Option-cases (folder_by_imap_path same_path name store)) [
        | inl f ↦ rw (a, cmd_move, f, cmd_move) (unfold expunged replay in refl)
        | inr (target, f) ↦ rw (a, cmd_move, f, cmd_move) (move_to-replay accepted tag _ target s)
      ]
    ]

keep_all :
    (goes : CachedMail → Bool) (idx : ℕ) (mails : List CachedMail)
    → is_empty (departed_from goes idx mails) ≡ true
    → keep (λ m. not (goes m)) mails ≡ mails
unfolding departed_from
keep_all goes idx [] h = refl
keep_all goes idx (m ∷ ms) h = ground (arith, keep_all goes (idx + 1) ms)

expunged-news : (ns : List ℕ) (n : ℕ) → expunged (map expunge ns ++ exists n ∷ []) ≡ ns
unfolding expunged
expunged-news ns n = rw (expunged-append ns (exists n ∷ [])) (append-nil ns)

news-replay :
    (goes : CachedMail → Bool) (s fresh : ImapSession) (same : Bool)
    → (same ≡ true → is_empty (departed_from goes 0 s.mails) ≡ true)
    → let expunges = sort_desc (departed_from goes 0 s.mails) in
      let r =
        if same
        then answer s []
        else answer fresh (map expunge expunges ++ exists (length fresh.mails) ∷ []) in
      (replay (expunged r.lines) s.mails ≡ keep (λ m. not (goes m)) s.mails)
      × ((r.lines ≡ map expunge (expunged r.lines) ++ exists (length r.session.mails) ∷ [])
          ⊎ ((r.lines ≡ []) × (r.session ≡ s)))
unfolding expunged replay
news-replay goes s fresh true h = (sym (keep_all goes 0 s.mails (h refl)), inr (refl, refl))
news-replay goes s fresh false h =
    let expunges = sort_desc (departed_from goes 0 s.mails) in
    (
      rw (expunged-news expunges (length fresh.mails))
          (departed_from-replay goes 0 [] s.mails refl),
      inl (rw (expunged-news expunges (length fresh.mails)) refl),
    )

-- When the store changes, a client that takes out of its list what the EXPUNGE lines name, in the
-- order of the lines, is left with exactly the mails of its list that the folder still holds, in
-- their order; and the lines end with the length of the new list, or there is none and the list
-- stays.
pub check_folder-replay :
    (store : MailStore) (folder : FolderInfo) (s : ImapSession)
    → let r = check_folder store folder s in
      let expunges = expunged r.lines in
      (replay expunges s.mails
        ≡ keep (λ m. not (has_departed (get_folder folder.id store) m)) s.mails)
      × ((r.lines ≡ map expunge expunges ++ exists (length r.session.mails) ∷ [])
          ⊎ ((r.lines ≡ []) × (r.session ≡ s)))
unfolding check_folder
check_folder-replay store folder s =
    news-replay (has_departed (get_folder folder.id store)) s (refresh_mails store folder.id s)
      (is_empty (departed_from (has_departed (get_folder folder.id store)) 0 s.mails)
        && not (any (is_added s.mails) (get_folder folder.id store))
        && length (get_folder folder.id store) == length s.mails)
      (λ h. ground arith)
