-- ===== src/Xl2tpd/Scheduler/Ends.antt =====
-- xl2tpd/scheduler.c: the end of `process_schedule`, with callbacks that schedule and deschedule.
use zy_agf.Prelude.{
  All, ℕ, suc, ◌+◌, ◌≤◌, ◌<◌, true, false, Option, none, some, List, [], ◌∷◌, ◌++◌, ◌≡◌, refl, ap,
  ◌∙◌, arith, Bool-cases, inl, inr, length, foldl, leb, if◌then◌else◌, ◌==◌,
}
use zy_agf.Xl2tpd.Scheduler.{
  Timeval, Entry, World, tvless, tvlesseq, due, insert, schedule, remove, deschedule, wait_time,
  process_schedule,
}
use zy_agf.Xl2tpd.Scheduler.Order.{
  micros, Normal, InOrder, All-insert, All-remove, due_lem, tvless-micros,
}
use zy_agf.Xl2tpd.Scheduler.Process.{wait_time_lem, step-run, step-stop, step-empty}

-- What a callback does to the queue: calls of `schedule` and `deschedule`.
pub data Op : Type 0 where
  scheduled : Timeval → Timeval → ℕ → ℕ → ℕ → Op
  descheduled : Option ℕ → Op

abbrev pub apply : List Entry → Op → List Entry
apply q (scheduled now tv func arg addr) = schedule now tv func arg addr q
apply q (descheduled s) = deschedule s q

-- The callback that does the operations `ops` and changes the rest of the state by `next`.
abbrev pub callback :
    {S : Type 0} → (Entry → S → List Op) → (Entry → S → S) → Entry → World S → World S
callback ops next e w = record {
  events = foldl apply w.events (ops e w.rest);
  rest = next e w.rest;
}

-- What is scheduled is for a time after `end`.
abbrev pub IsLate : ℕ → Op → Type 0
IsLate end (scheduled now tv func arg addr) =
    (now.tv_usec < 1000000) × (tv.tv_usec < 1000000) × (end < micros now + micros tv)
IsLate end (descheduled s) = Unit

-- A reading of the clock up to `end`.
abbrev pub IsReading : ℕ → Timeval → Type 0
IsReading end now = (now.tv_usec < 1000000) × (micros now ≤ end)

-- How many events have a time up to `end`.
abbrev pub count_by : ℕ → List Entry → ℕ
count_by end [] = 0
count_by end (p ∷ q) = let rest = count_by end q in if leb (micros p.tv) end then suc rest else rest

-- How the loop ends: with an empty queue and no delay, or at a first event whose time is after one of
-- the readings of the clock, and the delay leads from that reading to that time.
pub data Ends {S : Type 0} (clock : List Timeval) (w : World S) : Option Timeval → Type 0 where
  empty : w.events ≡ [] → Ends clock w none
  waiting :
      (earlier : List Timeval) (now : Timeval) (rest : List Timeval) (p : Entry) (q : List Entry)
      (delay : Timeval)
      → clock ≡ earlier ++ (now ∷ rest)
      → w.events ≡ p ∷ q
      → micros now < micros p.tv
      → micros now + micros delay ≡ micros p.tv
      → Ends clock w (some delay)

tvless_le :
    (a b : Timeval)
    → a.tv_usec ≤ 1000000
    → b.tv_usec ≤ 1000000
    → tvless a b ≡ true
    → micros a ≤ micros b
tvless_le a b h k e = ground arith

All-from :
    (x y : ℕ) (q : List Entry) → x ≤ y → All (λ r. y ≤ micros r.tv) q → All (λ r. x ≤ micros r.tv) q
All-from x y [] h a = tt
All-from x y (r ∷ q) h a = (omega (arith, h, a.0), All-from x y q h a.1)

insert-InOrder :
    (e : Entry) (q : List Entry)
    → e.tv.tv_usec ≤ 1000000
    → Normal q
    → InOrder q
    → InOrder (insert e q)
unfolding insert
insert-InOrder e [] u n s = (tt, tt)
insert-InOrder e (p ∷ q) u (m, n) s = elim (Bool-cases (tvless e.tv p.tv)) [
  | inl before ↦
      let le = tvless_le e.tv p.tv u m before in
      rw before ((le, All-from (micros e.tv) (micros p.tv) q le s.0), s)
  | inr after ↦ rw after (
    All-insert (λ r. micros p.tv ≤ micros r.tv) e q (tvless-micros e.tv p.tv u m after) s.0,
    insert-InOrder e q u n s.1,
  )
]

remove-InOrder : (s : ℕ) (q : List Entry) → InOrder q → InOrder (remove s q)
unfolding remove
remove-InOrder s [] a = tt
remove-InOrder s (p ∷ q) a = elim (Bool-cases (p.addr == s)) [
  | inl e ↦ rw e a.1
  | inr e ↦ rw e (All-remove (λ r. micros p.tv ≤ micros r.tv) s q a.0, remove-InOrder s q a.1)
]

count_by-insert :
    (end : ℕ) (e : Entry) (q : List Entry)
    → end < micros e.tv
    → count_by end (insert e q) ≡ count_by end q
unfolding insert
count_by-insert end e [] h =
    let no : leb (micros e.tv) end ≡ false = ground (arith, h) in rw no refl
count_by-insert end e (p ∷ q) h =
    let no : leb (micros e.tv) end ≡ false = ground (arith, h) in
    elim (Bool-cases (tvless e.tv p.tv)) [
      | inl before ↦ rw (before, no) refl
      | inr after ↦ rw (after, count_by-insert end e q h) refl
    ]

count_by-remove : (end s : ℕ) (q : List Entry) → count_by end (remove s q) ≤ count_by end q
unfolding remove
count_by-remove end s [] = omega arith
count_by-remove end s (p ∷ q) =
    let rest = count_by-remove end s q in
    elim (Bool-cases (p.addr == s)) [
      | inl e ↦ rw e (ground arith)
      | inr e ↦ rw e (ground (arith, rest))
    ]

-- What the loop keeps of a queue.
record Kept (end bound : ℕ) (q : List Entry) : Type 0 where
  normal : Normal q
  order : InOrder q
  few : count_by end q ≤ bound

apply-Kept :
    (end bound : ℕ) (q : List Entry) (op : Op)
    → IsLate end op
    → Kept end bound q
    → Kept end bound (apply q op)
unfolding schedule deschedule
apply-Kept end bound q (scheduled now tv func arg addr) (h, k, late) v =
    let (time, small) = due_lem now tv h k in
    let e : Entry = record { tv = due now tv; func = func; arg = arg; addr = addr } in
    record {
      normal = All-insert (λ p. p.tv.tv_usec ≤ 1000000) e q small v.normal;
      order = insert-InOrder e q small v.normal v.order;
      few = rw (count_by-insert end e q (omega (arith, time, late))) v.few;
    }
apply-Kept end bound q (descheduled none) late v = v
apply-Kept end bound q (descheduled (some s)) late v = record {
  normal = All-remove (λ p. p.tv.tv_usec ≤ 1000000) s q v.normal;
  order = remove-InOrder s q v.order;
  few = omega (arith, count_by-remove end s q, v.few);
}

ops-Kept :
    (end bound : ℕ) (q : List Entry) (ops : List Op)
    → All (IsLate end) ops
    → Kept end bound q
    → Kept end bound (foldl apply q ops)
ops-Kept end bound q [] h v = v
ops-Kept end bound q (op ∷ ops) (l, h) v =
    ops-Kept end bound (apply q op) ops h (apply-Kept end bound q op l v)

tvlesseq_le :
    (a now : Timeval)
    → a.tv_usec ≤ 1000000
    → now.tv_usec < 1000000
    → tvlesseq a now ≡ true
    → micros a ≤ micros now
tvlesseq_le a now h k e = ground arith

Ends-later :
    {S : Type 0} (now : Timeval) (clock : List Timeval) (w : World S) (out : Option Timeval)
    → Ends clock w out
    → Ends (now ∷ clock) w out
Ends-later now clock w _ (empty e) = empty e
Ends-later now clock w _ (waiting earlier n rest p q delay e f l d) =
    waiting (now ∷ earlier) n rest p q delay (ap (λ c. now ∷ c) e) f l d

module _ {S : Type 0} (end : ℕ) (ops : Entry → S → List Op) (next : Entry → S → S)
    (late : (e : Entry) (x : S) → All (IsLate end) (ops e x)) where
  process_from :
      (clock : List Timeval) (events : List Entry) (x : S)
      → All (IsReading end) clock
      → Normal events
      → InOrder events
      → count_by end events < length clock
      → (w' : World S) × (out : Option Timeval) × (process_schedule
            (callback ops next)
            clock
            (record { events = events; rest = x })
          ≡ some (w', out))
        × InOrder w'.events
        × Ends clock w' out
  process_from [] events x r n s h = absurd (omega arith)
  process_from (now ∷ clock) [] x r n s h = (
    record { events = []; rest = x },
    none,
    step-empty (callback ops next) now clock x,
    tt,
    empty refl,
  )
  process_from (now ∷ clock) (p ∷ q) x ((u, upto), r) (m, n) s h =
      elim (Bool-cases (tvlesseq p.tv now)) [
        | inl is_due ↦
            let le = tvlesseq_le p.tv now m u is_due in
            let counted : leb (micros p.tv) end ≡ true = ground (arith, le, upto) in
            let counts = rw counted at h in
            let fewer : count_by end q < length clock = omega (arith, counts) in
            let v =
              ops-Kept end (count_by end q) q (ops p x) (late p x)
                (record { normal = n; order = s.1; few = omega arith }) in
            let (w', out, e, s', d) =
              process_from clock (foldl apply q (ops p x)) (next p x) r v.normal v.order
                (omega (arith, v.few, fewer)) in
            (
              w',
              out,
              step-run (callback ops next) now clock x p q is_due ∙ e,
              s',
              Ends-later now clock w' out d,
            )
        | inr is_later ↦
            let (sum, positive) = wait_time_lem p.tv now m u is_later in
            (
              record { events = p ∷ q; rest = x },
              some (wait_time p.tv now),
              step-stop (callback ops next) now clock x p q is_later,
              s,
              waiting [] now clock p q (wait_time p.tv now) refl refl (omega (arith, sum, positive))
                  sum,
            )
      ]

  -- For callbacks that schedule and deschedule as they like, as long as what they schedule is for a time
  -- after `end`, and a clock whose readings are up to `end`: from a queue without falling times the loop
  -- ends within one reading more than there are events with a time up to `end`. The queue has no falling
  -- times then, and either it is empty and no delay is returned, or its first event is after one of the
  -- readings, and the delay returned leads from that reading to the event's time. The microseconds of the
  -- events are at most a second, those of the readings less.
  pub process_schedule_total :
      (clock : List Timeval) (w : World S)
      → All (IsReading end) clock
      → Normal w.events
      → InOrder w.events
      → count_by end w.events < length clock
      → (w' : World S) × (out : Option Timeval) × (process_schedule (callback ops next) clock w
          ≡ some (w', out))
        × InOrder w'.events
        × Ends clock w' out
  process_schedule_total clock w r n s h = process_from clock w.events w.rest r n s h
