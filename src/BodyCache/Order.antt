-- ===== src/BodyCache/Order.antt =====
-- The map of ticks (crates/bridge/src/body_cache.rs).
use tutabridge.Prelude.{
  ℕ, ◌≤◌, ◌<◌, arith, ◌≡◌, refl, Bool, true, false, ◌&&◌, String, List, [], ◌∷◌, ◌=s◌, eq_iff, ◌==◌,
  ltb, any, Bool-cases, inl, inr,
}
use tutabridge.BodyCache.Defs.{put_tick, drop_tick}

-- Whether the tick belongs to the mail.
abbrev pub has : List (ℕ × String) → ℕ → String → Bool
has order t eid = any (λ e. e.0 == t && e.1 =s eid) order

-- Ticks ascend, above the first number and up to the second.
abbrev pub Ascends : ℕ → List (ℕ × String) → ℕ → Type 0
Ascends lo [] hi = Unit
Ascends lo (e ∷ es) hi = (lo < e.0) × (e.0 ≤ hi) × Ascends e.0 es hi

pub Ascends-lower :
    (lo lo' hi : ℕ) (es : List (ℕ × String)) → lo' ≤ lo → Ascends lo es hi → Ascends lo' es hi
Ascends-lower lo lo' hi [] h a = tt
Ascends-lower lo lo' hi (e ∷ es) h (a, b, c) = (omega (arith, h, a), b, c)

pub drop_tick-Ascends :
    (t lo hi : ℕ) (es : List (ℕ × String)) → Ascends lo es hi → Ascends lo (drop_tick t es) hi
unfolding drop_tick
drop_tick-Ascends t lo hi [] a = tt
drop_tick-Ascends t lo hi (e ∷ es) (a, b, c) = elim (Bool-cases (e.0 == t)) [
  | inl d ↦ rw d (drop_tick-Ascends t lo hi es (Ascends-lower e.0 lo hi es (omega (arith, a)) c))
  | inr d ↦ rw d (a, b, drop_tick-Ascends t e.0 hi es c)
]

pub put_tick-Ascends :
    (now lo hi : ℕ) (eid : String) (es : List (ℕ × String))
    → lo < now
    → hi < now
    → Ascends lo es hi
    → Ascends lo (put_tick now eid es) now
unfolding put_tick
put_tick-Ascends now lo hi eid [] k h a = (k, omega arith, tt)
put_tick-Ascends now lo hi eid (e ∷ es) k h (a, b, c) =
    let later : ltb now e.0 ≡ false = ground (arith, b, h) in
    let other : (now == e.0) ≡ false = ground (arith, b, h) in
    rw (later, other)
      (a, omega (arith, b, h), put_tick-Ascends now e.0 hi eid es (omega (arith, b, h)) h c)

-- Below the first number there is no tick.
has_below :
    (lo hi t : ℕ) (eid : String) (es : List (ℕ × String))
    → Ascends lo es hi
    → t ≤ lo
    → has es t eid ≡ false
has_below lo hi t eid [] a h = refl
has_below lo hi t eid (e ∷ es) (a, b, c) h = ground (arith, a, h, has_below e.0 hi t eid es c)

-- A tick belongs to one mail.
pub has_unique :
    (lo hi t : ℕ) (x y : String) (es : List (ℕ × String))
    → Ascends lo es hi
    → has es t x ≡ true
    → has es t y ≡ true
    → (x =s y) ≡ true
has_unique lo hi t x y [] a h k = ground (arith, h)
has_unique lo hi t x y (e ∷ es) (a, b, c) h k = elim (Bool-cases (e.0 == t)) [
  | inl d ↦ ground (
    arith,
    h,
    k,
    d,
    has_below e.0 hi t x es c,
    has_below e.0 hi t y es c,
    eq_iff e.1 x,
    eq_iff e.1 y,
    eq_iff x y,
  )
  | inr d ↦ ground (arith, h, k, d, has_unique e.0 hi t x y es c)
]

pub has-drop_tick :
    (t s : ℕ) (x : String) (es : List (ℕ × String))
    → (s == t) ≡ false
    → has es s x ≡ true
    → has (drop_tick t es) s x ≡ true
unfolding drop_tick
has-drop_tick t s x [] d h = h
has-drop_tick t s x (e ∷ es) d h = ground (arith, d, h, has-drop_tick t s x es)

pub has-put_tick :
    (now lo hi s : ℕ) (eid x : String) (es : List (ℕ × String))
    → hi < now
    → Ascends lo es hi
    → has es s x ≡ true
    → has (put_tick now eid es) s x ≡ true
unfolding put_tick
has-put_tick now lo hi s eid x [] h a k = ground (arith, k)
has-put_tick now lo hi s eid x (e ∷ es) h (a, b, c) k =
    ground (arith, h, b, k, has-put_tick now e.0 hi s eid x es h c)

pub has-put_tick-new :
    (now : ℕ) (eid : String) (es : List (ℕ × String)) → has (put_tick now eid es) now eid ≡ true
unfolding put_tick
has-put_tick-new now eid [] = ground (arith, eq_iff eid eid)
has-put_tick-new now eid (e ∷ es) = ground (arith, eq_iff eid eid, has-put_tick-new now eid es)

pub Ascends-higher :
    (lo hi hi' : ℕ) (es : List (ℕ × String)) → hi ≤ hi' → Ascends lo es hi → Ascends lo es hi'
Ascends-higher lo hi hi' [] h a = tt
Ascends-higher lo hi hi' (e ∷ es) h (a, b, c) =
    (a, omega (arith, h, b), Ascends-higher e.0 hi hi' es h c)
