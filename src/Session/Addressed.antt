-- ===== src/Session/Addressed.antt =====
-- The mails that a set of message numbers names, and STORE on them
-- (crates/bridge/src/imap/session.rs).
use tutabridge.Prelude.{
  ℕ, zero, suc, ◌+◌, ◌-◌, ◌≡◌, refl, subst, ◌∙◌, Bool, true, false, not, ◌&&◌, ◌||◌, String, Option,
  none, some, List, [], ◌∷◌, ◌++◌, arith, ltb, leb, ◌==◌, if◌then◌else◌, any, get_elem?, length,
}
use tutabridge.Session.State.{CachedMail, ImapSession, selected}
use tutabridge.Session.Sets.{
  Part, single, range, parse_seq_num, seq_to_index, to_list, indices_from, max_num, resolve_part,
  resolve_parts, insert_once, sort_dedup, resolve_sequence_set,
}
use tutabridge.Session.Commands.{StoreArgs, change_at, set_unread, cmd_store}

-- Whether a part of a set names a message number, where `*` is `max`.
pub addresses : ℕ → ℕ → Part → Bool
unfolding parse_seq_num
addresses max n (single a) = parse_seq_num a max == n
addresses max n (range a b) =
    leb (parse_seq_num a max) n && leb n (parse_seq_num b max)
    || leb (parse_seq_num b max) n && leb n (parse_seq_num a max)

any-append :
    (i : ℕ) (xs ys : List ℕ)
    → any (λ j. j == i) (xs ++ ys) ≡ (any (λ j. j == i) xs || any (λ j. j == i) ys)
any-append i [] ys = refl
any-append i (x ∷ xs) ys = ground (arith, any-append i xs ys)

any-insert_once :
    (i n : ℕ) (ns : List ℕ)
    → any (λ j. j == i) (insert_once n ns) ≡ (n == i || any (λ j. j == i) ns)
unfolding insert_once
any-insert_once i n [] = refl
any-insert_once i n (x ∷ xs) = ground (arith, any-insert_once i n xs)

any-sort_dedup : (i : ℕ) (ns : List ℕ) → any (λ j. j == i) (sort_dedup ns) ≡ any (λ j. j == i) ns
unfolding sort_dedup
any-sort_dedup i [] = refl
any-sort_dedup i (n ∷ ns) = ground (arith, any-insert_once i n (sort_dedup ns), any-sort_dedup i ns)

any-seq_to_index :
    (i n : ℕ) (mails : List CachedMail)
    → any (λ j. j == i) (to_list (seq_to_index mails n false))
      ≡ (ltb i (length mails) && n == suc i)
unfolding seq_to_index
any-seq_to_index i n mails = ground arith

any-indices_from :
    (i n count : ℕ) (mails : List CachedMail)
    → any (λ j. j == i) (indices_from mails false n count)
      ≡ (ltb i (length mails) && (leb n (suc i) && ltb (suc i) (n + count)))
unfolding indices_from
any-indices_from i n zero mails = ground arith
any-indices_from i n (suc count) mails = ground (
  arith,
  any-append i (to_list (seq_to_index mails n false)) (indices_from mails false (suc n) count),
  any-seq_to_index i n mails,
  any-indices_from i (suc n) count mails,
)

any-resolve_part :
    (i : ℕ) (mails : List CachedMail) (p : Part)
    → any (λ j. j == i) (resolve_part mails false p)
      ≡ (ltb i (length mails) && addresses (length mails) (suc i) p)
unfolding resolve_part max_num addresses
any-resolve_part i mails (single a) = any-seq_to_index i (parse_seq_num a (length mails)) mails
any-resolve_part i mails (range a b) =
    let s = parse_seq_num a (length mails) in
    let e = parse_seq_num b (length mails) in
    ground (arith, any-indices_from i s (suc e - s) mails, any-indices_from i e (suc s - e) mails)

any-resolve_parts :
    (i : ℕ) (mails : List CachedMail) (ps : List Part)
    → any (λ j. j == i) (resolve_parts mails false ps)
      ≡ (ltb i (length mails) && any (addresses (length mails) (suc i)) ps)
unfolding resolve_parts
any-resolve_parts i mails [] = ground arith
any-resolve_parts i mails (p ∷ ps) = ground (
  arith,
  any-append i (resolve_part mails false p) (resolve_parts mails false ps),
  any-resolve_part i mails p,
  any-resolve_parts i mails ps,
)

-- A set of message numbers selects exactly the positions of the list whose number some part of the
-- set names, with `*` for the last one and the ends of a range in either order.
pub resolve_sequence_set_lem :
    (i : ℕ) (mails : List CachedMail) (set : List Part)
    → any (λ j. j == i) (resolve_sequence_set mails set false)
      ≡ (ltb i (length mails) && any (addresses (length mails) (suc i)) set)
unfolding resolve_sequence_set
resolve_sequence_set_lem i mails set =
    any-sort_dedup i (resolve_parts mails false set) ∙ any-resolve_parts i mails set

abbrev pub map_some : (CachedMail → CachedMail) → Option CachedMail → Option CachedMail
map_some f none = none
map_some f (some m) = some (f m)

change_one : (CachedMail → CachedMail) → Bool → CachedMail → CachedMail
change_one f here m = if here then f m else m

get_elem-change_at :
    (f : CachedMail → CachedMail) (indices : List ℕ) (k i n : ℕ) (mails : List CachedMail)
    → k + i ≡ n
    → get_elem? (change_at f indices k mails) i
      ≡ map_some (change_one f (any (λ j. j == n) indices)) (get_elem? mails i)
unfolding change_at change_one
get_elem-change_at f indices k i n [] e = refl
get_elem-change_at f indices k zero n (m ∷ ms) e =
    let same : (k ≡ n) = omega arith in
    subst
      (λ n.
        some (if any (λ j. j == k) indices then f m else m)
        ≡ some (change_one f (any (λ j. j == n) indices) m))
      same refl
get_elem-change_at f indices k (suc i) n (m ∷ ms) e =
    get_elem-change_at f indices (suc k) i n ms (omega arith)

in_range :
    (i : ℕ) (mails : List CachedMail) (m : CachedMail)
    → get_elem? mails i ≡ some m
    → ltb i (length mails) ≡ true
in_range i [] m h = ground arith
in_range zero (x ∷ xs) m h = ground arith
in_range (suc i) (x ∷ xs) m h = ground (arith, in_range i xs m h)

-- What STORE makes of a mail that it is about.
pub stored : StoreArgs → CachedMail → CachedMail
stored args m =
    let read = if args.seen then set_unread (not args.adding) m else m in
    if args.deleted then record read { deleted = not args.removing } else read

change_twice :
    (i : ℕ) (args : StoreArgs) (indices : List ℕ) (mails : List CachedMail) (a b : Bool)
    → let read = if a then change_at (set_unread (not args.adding)) indices 0 mails else mails in
      let marked =
        if b
        then change_at (λ m. record m { deleted = not args.removing }) indices 0 read
        else read in
      get_elem? marked i
      ≡ map_some
          (λ m.
            let here = any (λ j. j == i) indices in
            let read = if a then change_one (set_unread (not args.adding)) here m else m in
            if b
            then change_one (λ x. record x { deleted = not args.removing }) here read
            else read)
          (get_elem? mails i)
unfolding change_one
change_twice i args indices mails a b =
    let read = change_at (set_unread (not args.adding)) indices 0 mails in
    ground (
      arith,
      get_elem-change_at (set_unread (not args.adding)) indices 0 i i mails (omega arith),
      get_elem-change_at (λ m. record m { deleted = not args.removing }) indices 0 i i mails
          (omega arith),
      get_elem-change_at (λ m. record m { deleted = not args.removing }) indices 0 i i read
          (omega arith),
    )

-- STORE in a selected mailbox, with message numbers: at each position stands the mail of before, and
-- it is marked exactly if the set names its number: for \Seen it becomes read if the item is +FLAGS
-- and unread otherwise, for \Deleted it is marked for deletion unless the item is -FLAGS.
pub cmd_store_lem :
    (tag : String) (args : StoreArgs) (s : ImapSession) (i : ℕ)
    → s.state ≡ selected
    → get_elem? (cmd_store tag args false s).session.mails i
      ≡ map_some
          (λ m. if any (addresses (length s.mails) (suc i)) args.set then stored args m else m)
          (get_elem? s.mails i)
unfolding cmd_store stored change_one
cmd_store_lem tag args s i e =
    rw (e, cmd_store)
      (change_twice i args (resolve_sequence_set s.mails args.set false) s.mails args.seen
          args.deleted
        ∙ at_mail (get_elem? s.mails i) refl)
  where
    at_mail :
        (o : Option CachedMail)
        → get_elem? s.mails i ≡ o
        → map_some
            (λ m.
              let here = any (λ j. j == i) (resolve_sequence_set s.mails args.set false) in
              let read =
                if args.seen then change_one (set_unread (not args.adding)) here m else m in
              if args.deleted
              then change_one (λ x. record x { deleted = not args.removing }) here read
              else read)
            o
          ≡ map_some
              (λ m. if any (addresses (length s.mails) (suc i)) args.set then stored args m else m)
              o
    at_mail none h = refl
    at_mail (some m) h =
        ground (arith, resolve_sequence_set_lem i s.mails args.set, in_range i s.mails m h)
