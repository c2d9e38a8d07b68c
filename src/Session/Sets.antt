-- ===== src/Session/Sets.antt =====
-- Sequence sets and the two loops that expunge (crates/bridge/src/imap/session.rs). A set is taken
-- after its text is split: a number that does not parse is 0 there, as in `parse_seq_num`. Message
-- numbers are casts of list positions to 32 bits, which a list of that many mails would exceed.
use tutabridge.Prelude.{
  ℕ, suc, zero, ◌+◌, ◌-◌, Bool, ◌&&◌, Option, none, some, List, [], ◌∷◌, ◌++◌, ltb, leb, ◌==◌,
  if◌then◌else◌, length,
}
use tutabridge.Session.State.{CachedMail}

pub data Num : Type 0 where
  star : Num
  num : ℕ → Num

pub data Part : Type 0 where
  single : Num → Part
  range : Num → Num → Part

unfoldable pub parse_seq_num : Num → ℕ → ℕ
parse_seq_num star max = max
parse_seq_num (num n) max = n

larger : ℕ → ℕ → ℕ
larger a b = if ltb a b then b else a

max_uid : List CachedMail → ℕ
unfolding larger
max_uid [] = 0
max_uid (m ∷ ms) = larger m.uid (max_uid ms)

position_from : ℕ → ℕ → List CachedMail → Option ℕ
position_from i uid [] = none
position_from i uid (m ∷ ms) =
    let later = position_from (suc i) uid ms in if m.uid == uid then some i else later

unfoldable pub seq_to_index : List CachedMail → ℕ → Bool → Option ℕ
unfolding position_from
seq_to_index mails n uid_mode =
    if uid_mode
    then position_from 0 n mails
    else if leb 1 n && leb n (length mails)
    then some (n - 1)
    else none

abbrev pub to_list : Option ℕ → List ℕ
to_list none = []
to_list (some i) = i ∷ []

-- `for n in lo..=hi`, `count` rounds of it.
unfoldable pub indices_from : List CachedMail → Bool → ℕ → ℕ → List ℕ
unfolding seq_to_index
indices_from mails uid_mode n zero = []
indices_from mails uid_mode n (suc count) =
    to_list (seq_to_index mails n uid_mode) ++ indices_from mails uid_mode (suc n) count

unfoldable pub max_num : List CachedMail → Bool → ℕ
unfolding max_uid
max_num mails uid_mode = if uid_mode then max_uid mails else length mails

unfoldable pub resolve_part : List CachedMail → Bool → Part → List ℕ
unfolding indices_from parse_seq_num max_num seq_to_index
resolve_part mails uid_mode (single n) =
    to_list (seq_to_index mails (parse_seq_num n (max_num mails uid_mode)) uid_mode)
resolve_part mails uid_mode (range a b) =
    let s = parse_seq_num a (max_num mails uid_mode) in
    let e = parse_seq_num b (max_num mails uid_mode) in
    if leb s e
    then indices_from mails uid_mode s (suc e - s)
    else indices_from mails uid_mode e (suc s - e)

unfoldable pub resolve_parts : List CachedMail → Bool → List Part → List ℕ
unfolding resolve_part
resolve_parts mails uid_mode [] = []
resolve_parts mails uid_mode (p ∷ ps) =
    resolve_part mails uid_mode p ++ resolve_parts mails uid_mode ps

-- `sort` and `dedup` in one: a number that is there already is not put in again.
unfoldable pub insert_once : ℕ → List ℕ → List ℕ
insert_once n [] = n ∷ []
insert_once n (x ∷ xs) =
    if ltb n x then n ∷ x ∷ xs else if n == x then x ∷ xs else x ∷ insert_once n xs

unfoldable pub sort_dedup : List ℕ → List ℕ
unfolding insert_once
sort_dedup [] = []
sort_dedup (n ∷ ns) = insert_once n (sort_dedup ns)

unfoldable pub resolve_sequence_set : List CachedMail → List Part → Bool → List ℕ
unfolding resolve_parts sort_dedup
resolve_sequence_set mails set uid_mode = sort_dedup (resolve_parts mails uid_mode set)

-- The loop of EXPUNGE and MOVE: a mail that goes is announced under its number in the list that is
-- left by then.
unfoldable pub expunge_from : (CachedMail → Bool) → ℕ → List CachedMail → List ℕ × List CachedMail
expunge_from goes seq [] = ([], [])
expunge_from goes seq (m ∷ ms) =
    let gone = expunge_from goes seq ms in
    let kept = expunge_from goes (suc seq) ms in
    if goes m then (seq ∷ gone.0, gone.1) else (kept.0, m ∷ kept.1)

-- The numbers, in the old list, of the mails that went.
unfoldable pub departed_from : (CachedMail → Bool) → ℕ → List CachedMail → List ℕ
departed_from goes idx [] = []
departed_from goes idx (m ∷ ms) =
    if goes m then (idx + 1) ∷ departed_from goes (idx + 1) ms else departed_from goes (idx + 1) ms

-- `sort_unstable_by(|a, b| b.cmp(a))`
unfoldable pub insert_desc : ℕ → List ℕ → List ℕ
insert_desc n [] = n ∷ []
insert_desc n (x ∷ xs) = if leb x n then n ∷ x ∷ xs else x ∷ insert_desc n xs

unfoldable pub sort_desc : List ℕ → List ℕ
unfolding insert_desc
sort_desc [] = []
sort_desc (n ∷ ns) = insert_desc n (sort_desc ns)
