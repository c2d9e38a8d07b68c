-- ===== src/MailStore/Numbering.antt =====
-- UIDs within a folder: all below a bound and no two alike, and which writers keep that
-- (crates/bridge/src/sync.rs).
use tutabridge.Prelude.{
  ℕ, ◌+◌, ◌≤◌, ◌<◌, ◌≡◌, ◌≢◌, String, Bool, List, [], ◌∷◌, arith, keep, All, All-mono,
}
use tutabridge.MailStore.Defs.{StoredMail}
use tutabridge.MailStore.Ops.{drop_mail, upsert_mail, update_first}

abbrev pub IsBelow : ℕ → List StoredMail → Type 0
IsBelow n = All (λ m. m.uid < n)

abbrev pub Avoids : ℕ → List StoredMail → Type 0
Avoids u = All (λ m. m.uid ≢ u)

-- No two mails have the same UID.
abbrev pub IsUnique : List StoredMail → Type 0
IsUnique [] = Unit {0}
IsUnique (m ∷ ms) = Avoids m.uid ms × IsUnique ms

abbrev pub IsNumbered : ℕ → List StoredMail → Type 0
IsNumbered n mails = IsBelow n mails × IsUnique mails

Avoids-keep :
    (u : ℕ) (p : StoredMail → Bool) (ms : List StoredMail) → Avoids u ms → Avoids u (keep p ms)
Avoids-keep u p [] h = tt
Avoids-keep u p (m ∷ ms) h = ground (arith, Avoids-keep u p ms h.1)

keep-IsNumbered :
    (n : ℕ) (p : StoredMail → Bool) (ms : List StoredMail)
    → IsNumbered n ms
    → IsNumbered n (keep p ms)
keep-IsNumbered n p [] h = (tt, tt)
keep-IsNumbered n p (m ∷ ms) h =
    ground (arith, keep-IsNumbered n p ms (h.0.1, h.1.1), Avoids-keep m.uid p ms h.1.0)

pub drop_mail-IsNumbered :
    (n : ℕ) (eid : String) (ms : List StoredMail)
    → IsNumbered n ms
    → IsNumbered n (drop_mail eid ms)
unfolding drop_mail
drop_mail-IsNumbered n eid ms h = keep-IsNumbered n _ ms h

Avoids-upsert :
    (u : ℕ) (eid : String) (x : StoredMail) (ms : List StoredMail)
    → x.uid ≢ u
    → Avoids u ms
    → Avoids u (upsert_mail eid x ms)
unfolding upsert_mail
Avoids-upsert u eid x [] h a = (h, tt)
Avoids-upsert u eid x (m ∷ ms) h a = ground (arith, Avoids-upsert u eid x ms h a.1)

Avoids-below : (n : ℕ) (ms : List StoredMail) → IsBelow n ms → Avoids n ms
Avoids-below n [] h = tt
Avoids-below n (m ∷ ms) h = (omega arith, Avoids-below n ms h.1)

IsBelow-suc : (n : ℕ) (ms : List StoredMail) → IsBelow n ms → IsBelow (n + 1) ms
IsBelow-suc n [] h = tt
IsBelow-suc n (m ∷ ms) h = (omega arith, IsBelow-suc n ms h.1)

-- A mail that takes the next number.
pub upsert_mail-IsNumbered :
    (n : ℕ) (eid : String) (x : StoredMail) (ms : List StoredMail)
    → x.uid ≡ n
    → IsNumbered n ms
    → IsNumbered (n + 1) (upsert_mail eid x ms)
unfolding upsert_mail
upsert_mail-IsNumbered n eid x [] e h = ((omega arith, tt), (tt, tt))
upsert_mail-IsNumbered n eid x (m ∷ ms) e h = ground (
  arith,
  upsert_mail-IsNumbered n eid x ms e (h.0.1, h.1.1),
  Avoids-upsert m.uid eid x ms,
  Avoids-below n ms h.0.1,
  IsBelow-suc n ms h.0.1,
)

Avoids-update :
    (u : ℕ) (p : StoredMail → Bool) (f : StoredMail → StoredMail) (ms : List StoredMail)
    → ((m : StoredMail) → (f m).uid ≡ m.uid)
    → Avoids u ms
    → Avoids u (update_first p f ms)
unfolding update_first
Avoids-update u p f [] same h = tt
Avoids-update u p f (m ∷ ms) same h = ground (arith, same m, Avoids-update u p f ms same h.1)

pub IsNumbered-mono : (n k : ℕ) (ms : List StoredMail) → n ≤ k → IsNumbered n ms → IsNumbered k ms
IsNumbered-mono n k ms le h = (All-mono _ _ (λ m (lt : m.uid < n). omega arith) ms h.0, h.1)

-- A change of a mail that leaves its number.
pub update_first-IsNumbered :
    (n : ℕ) (p : StoredMail → Bool) (f : StoredMail → StoredMail) (ms : List StoredMail)
    → ((m : StoredMail) → (f m).uid ≡ m.uid)
    → IsNumbered n ms
    → IsNumbered n (update_first p f ms)
unfolding update_first
update_first-IsNumbered n p f [] same h = h
update_first-IsNumbered n p f (m ∷ ms) same h = ground (
  arith,
  same m,
  update_first-IsNumbered n p f ms same (h.0.1, h.1.1),
  Avoids-update m.uid p f ms same h.1.0,
)
