-- ===== src/Xl2tpd/Scheduler/Order.antt =====
-- xl2tpd/scheduler.c: the order of the queue.
use zy_agf.Prelude.{
  All, ℕ, ◌+◌, ◌*◌, ◌≤◌, ◌<◌, true, false, Option, none, some, List, [], ◌∷◌, ◌++◌, ◌==◌, ◌≡◌, refl,
  ap, arith, ◌≢◌, subst, Bool-cases, inl, inr,
}
use zy_agf.Xl2tpd.Scheduler.{Timeval, Entry, tvless, due, insert, schedule, remove, deschedule}

-- Absolute time in microseconds.
abbrev pub micros : Timeval → ℕ
micros t = t.tv_sec * 1000000 + t.tv_usec

abbrev pub NotBefore : Entry → Entry → Type 0
NotBefore e p = tvless p.tv e.tv ≡ false

-- No entry is before one that stands in front of it.
abbrev pub Sorted : List Entry → Type 0
Sorted [] = Unit
Sorted (e ∷ q) = All (NotBefore e) q × Sorted q

tvless-asymm : (a b : Timeval) → tvless a b ≡ true → tvless b a ≡ false
tvless-asymm a b h = ground arith

tvless_trans : (a b c : Timeval) → tvless a b ≡ true → tvless c b ≡ false → tvless c a ≡ false
tvless_trans a b c h k = ground arith

not_before_trans : (a b c : Timeval) → tvless b a ≡ false → tvless c b ≡ false → tvless c a ≡ false
not_before_trans a b c h k = ground arith

pub All-insert :
    (P : Entry → Type 0) (e : Entry) (q : List Entry) → P e → All P q → All P (insert e q)
unfolding insert
All-insert P e [] h a = (h, tt)
All-insert P e (p ∷ q) h a = elim (Bool-cases (tvless e.tv p.tv)) [
  | inl before ↦ rw before (h, a)
  | inr after ↦ rw after (a.0, All-insert P e q h a.1)
]

All-later :
    (e p : Entry) (q : List Entry)
    → tvless e.tv p.tv ≡ true
    → All (NotBefore p) q
    → All (NotBefore e) q
All-later e p [] h a = tt
All-later e p (r ∷ q) h a = (tvless_trans e.tv p.tv r.tv h a.0, All-later e p q h a.1)

insert-Sorted : (e : Entry) (q : List Entry) → Sorted q → Sorted (insert e q)
unfolding insert
insert-Sorted e [] s = (tt, tt)
insert-Sorted e (p ∷ q) s = elim (Bool-cases (tvless e.tv p.tv)) [
  | inl before ↦ rw before ((tvless-asymm e.tv p.tv before, All-later e p q before s.0), s)
  | inr after ↦ rw after (All-insert (NotBefore p) e q after s.0, insert-Sorted e q s.1)
]

-- `schedule` keeps the queue in order.
pub schedule-Sorted :
    (now tv : Timeval) (func arg addr : ℕ) (q : List Entry)
    → Sorted q
    → Sorted (schedule now tv func arg addr q)
unfolding schedule
schedule-Sorted now tv func arg addr q s =
    insert-Sorted (record { tv = due now tv; func = func; arg = arg; addr = addr }) q s

-- Where both times have less than a second of microseconds, the time computed is their sum, and its
-- microseconds are at most 1000000.
pub due_lem :
    (now tv : Timeval)
    → now.tv_usec < 1000000
    → tv.tv_usec < 1000000
    → (micros (due now tv) ≡ micros now + micros tv) × ((due now tv).tv_usec ≤ 1000000)
unfolding due
due_lem now tv h k = ground arith

-- Where microseconds are at most a second, the order of the queue is the order of absolute time.
pub tvless-micros :
    (a b : Timeval)
    → a.tv_usec ≤ 1000000
    → b.tv_usec ≤ 1000000
    → tvless a b ≡ false
    → micros b ≤ micros a
tvless-micros a b h k e = ground arith

due-carried :
    (now tv : Timeval)
    → now.tv_usec < 1000000
    → tv.tv_usec < 1000000
    → now.tv_usec + tv.tv_usec ≢ 1000000
    → (due now tv).tv_usec < 1000000
unfolding due
due-carried now tv h k one = ground arith

-- Where an entry for the time `time` goes: behind all that are not later, in front of all that are later.
pub record Placed (time : ℕ) (e : Entry) (q out : List Entry) : Type 0 where
  pub at : micros e.tv ≡ time
  pub before : List Entry
  pub after : List Entry
  pub splits : q ≡ before ++ after
  pub result : out ≡ before ++ (e ∷ after)
  pub not_later : All (λ p. micros p.tv ≤ time) before
  pub later : All (λ p. time < micros p.tv) after

-- The microseconds of an entry are at most a second, as `schedule` makes them.
abbrev pub Normal : List Entry → Type 0
Normal q = All (λ p. p.tv.tv_usec ≤ 1000000) q

-- Absolute times do not fall along the queue.
abbrev pub InOrder : List Entry → Type 0
InOrder [] = Unit
InOrder (e ∷ q) = All (λ p. micros e.tv ≤ micros p.tv) q × InOrder q

tvless-later :
    (a b : Timeval)
    → a.tv_usec < 1000000
    → b.tv_usec ≤ 1000000
    → tvless a b ≡ true
    → micros a < micros b
tvless-later a b h k e = ground arith

All-later_than :
    (time : ℕ) (p : Entry) (q : List Entry)
    → time < micros p.tv
    → All (λ r. micros p.tv ≤ micros r.tv) q
    → All (λ r. time < micros r.tv) q
All-later_than time p [] h a = tt
All-later_than time p (r ∷ q) h a = (omega (arith, h, a.0), All-later_than time p q h a.1)

insert-Placed :
    (e : Entry) (q : List Entry)
    → e.tv.tv_usec < 1000000
    → Normal q
    → InOrder q
    → Placed (micros e.tv) e q (insert e q)
unfolding insert
insert-Placed e [] u n s = record {
  at = refl;
  before = [];
  after = [];
  splits = refl;
  result = refl;
  not_later = tt;
  later = tt;
}
insert-Placed e (p ∷ q) u (m, n) s = elim (Bool-cases (tvless e.tv p.tv)) [
  | inl before ↦
      let first = tvless-later e.tv p.tv u m before in
      record {
        at = refl;
        before = [];
        after = p ∷ q;
        splits = refl;
        result = rw before;
        not_later = tt;
        later = (first, All-later_than (micros e.tv) p q first s.0);
      }
  | inr after ↦
      let ih = insert-Placed e q u n s.1 in
      record {
        at = refl;
        before = p ∷ ih.before;
        after = ih.after;
        splits = ap (◌∷◌ p) ih.splits;
        result = rw after (ap (◌∷◌ p) ih.result);
        not_later = (tvless-micros e.tv p.tv (omega (arith, u)) m after, ih.not_later);
        later = ih.later;
      }
]

-- The queue has no falling times and microseconds of at most a second; `now` and the delay have less than
-- a second of microseconds, which do not add up to exactly one second. Then `schedule` makes an entry for
-- the sum of `now` and the delay and puts it behind every entry whose time is not later, those of the
-- same time included, and in front of every entry whose time is later; the others keep their order.
pub schedule-Placed :
    (now tv : Timeval) (func arg addr : ℕ) (q : List Entry)
    → now.tv_usec < 1000000
    → tv.tv_usec < 1000000
    → now.tv_usec + tv.tv_usec ≢ 1000000
    → Normal q
    → InOrder q
    → Placed
        (micros now + micros tv)
        (record { tv = due now tv; func = func; arg = arg; addr = addr })
        q
        (schedule now tv func arg addr q)
unfolding schedule
schedule-Placed now tv func arg addr q h k one n s =
    let e : Entry = record { tv = due now tv; func = func; arg = arg; addr = addr } in
    subst (λ t. Placed t e q (insert e q)) (due_lem now tv h k).0
      (insert-Placed e q (due-carried now tv h k one) n s)

-- No entry of the queue has the address.
abbrev pub Absent : ℕ → List Entry → Type 0
Absent addr q = All (λ p. (p.addr == addr) ≡ false) q

eq_refl : (n : ℕ) → (n == n) ≡ true
eq_refl n = ground arith

remove-insert : (e : Entry) (q : List Entry) → Absent e.addr q → remove e.addr (insert e q) ≡ q
unfolding insert remove
remove-insert e [] a = rw (eq_refl e.addr)
remove-insert e (p ∷ q) a = elim (Bool-cases (tvless e.tv p.tv)) [
  | inl before ↦ rw (before, eq_refl e.addr)
  | inr after ↦ rw (after, a.0, remove-insert e q a.1)
]

-- Where no entry of the queue has the address that `schedule` returns, `deschedule` of it right after
-- restores the queue.
pub deschedule-schedule :
    (now tv : Timeval) (func arg addr : ℕ) (q : List Entry)
    → Absent addr q
    → deschedule (some addr) (schedule now tv func arg addr q) ≡ q
unfolding schedule deschedule
deschedule-schedule now tv func arg addr q a =
    remove-insert (record { tv = due now tv; func = func; arg = arg; addr = addr }) q a

pub All-remove : (P : Entry → Type 0) (s : ℕ) (q : List Entry) → All P q → All P (remove s q)
unfolding remove
All-remove P s [] a = tt
All-remove P s (p ∷ q) a = elim (Bool-cases (p.addr == s)) [
  | inl e ↦ rw e a.1
  | inr ne ↦ rw ne (a.0, All-remove P s q a.1)
]

remove-Sorted : (s : ℕ) (q : List Entry) → Sorted q → Sorted (remove s q)
unfolding remove
remove-Sorted s [] a = tt
remove-Sorted s (p ∷ q) a = elim (Bool-cases (p.addr == s)) [
  | inl e ↦ rw e a.1
  | inr ne ↦ rw ne (All-remove (NotBefore p) s q a.0, remove-Sorted s q a.1)
]

-- `deschedule` keeps the queue in order.
pub deschedule-Sorted : (s : Option ℕ) (q : List Entry) → Sorted q → Sorted (deschedule s q)
unfolding deschedule
deschedule-Sorted none q a = a
deschedule-Sorted (some s) q a = remove-Sorted s q a
