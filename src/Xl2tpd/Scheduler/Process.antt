-- ===== src/Xl2tpd/Scheduler/Process.antt =====
-- `process_schedule`: what runs, what is left, and the delay that it returns.
use zy_agf.Prelude.{
  All, ℕ, zero, suc, ◌+◌, ◌≤◌, ◌<◌, true, false, Option, none, some, List, [], ◌∷◌, ◌++◌, ◌≡◌, refl,
  sym, ap, ◌∙◌, arith, Bool-cases, inl, inr, length, append_assoc, append-nil,
}
use zy_agf.Xl2tpd.Scheduler.{Timeval, Entry, World, tvlesseq, wait_time, process_schedule}
use zy_agf.Xl2tpd.Scheduler.Order.{micros, NotBefore, Sorted}

-- For an event that is not yet due, with microseconds of at most 1000000, the delay is positive, and the
-- current time and the delay add up to the event's time.
pub wait_time_lem :
    (event now : Timeval)
    → event.tv_usec ≤ 1000000
    → now.tv_usec < 1000000
    → tvlesseq event now ≡ false
    → (micros now + micros (wait_time event now) ≡ micros event)
      × (0 < micros (wait_time event now))
unfolding wait_time
wait_time_lem event now h k e = ground arith

module _ {S : Type 0} (call : Entry → World S → World S) where
  pub step-run :
      (now : Timeval) (clock : List Timeval) (x : S) (p : Entry) (q : List Entry)
      → tvlesseq p.tv now ≡ true
      → process_schedule call (now ∷ clock) (record { events = p ∷ q; rest = x })
        ≡ process_schedule call clock (call p (record { events = q; rest = x }))
  unfolding process_schedule
  step-run now clock x p q due = rw (process_schedule, due)

  pub step-stop :
      (now : Timeval) (clock : List Timeval) (x : S) (p : Entry) (q : List Entry)
      → tvlesseq p.tv now ≡ false
      → process_schedule call (now ∷ clock) (record { events = p ∷ q; rest = x })
        ≡ some (record { events = p ∷ q; rest = x }, some (wait_time p.tv now))
  unfolding process_schedule
  step-stop now clock x p q due = rw (process_schedule, due)

  pub step-empty :
      (now : Timeval) (clock : List Timeval) (x : S)
      → process_schedule call (now ∷ clock) (record { events = []; rest = x })
        ≡ some (record { events = []; rest = x }, none)
  unfolding process_schedule
  step-empty now clock x = refl

-- A callback that only leaves a mark of the event.
abbrev pub record_run : Entry → World (List Entry) → World (List Entry)
record_run e w = record w { rest = w.rest ++ (e ∷ []) }

-- The events are cut into those that are due at `now`, all of which run, and the others, which stay.
pub record Cut (now : Timeval) (events marks : List Entry) (w : World (List Entry)) : Type 0 where
  pub ran : List Entry
  pub splits : events ≡ ran ++ w.events
  pub marked : w.rest ≡ marks ++ ran
  pub due : All (λ p. tvlesseq p.tv now ≡ true) ran
  pub waiting : All (λ p. tvlesseq p.tv now ≡ false) w.events

abbrev pub clock_at : ℕ → Timeval → List Timeval
clock_at zero now = []
clock_at (suc n) now = now ∷ clock_at n now

waits :
    (now : Timeval) (p : Entry) (q : List Entry)
    → tvlesseq p.tv now ≡ false
    → All (NotBefore p) q
    → All (λ r. tvlesseq r.tv now ≡ false) q
waits now p [] h a = tt
waits now p (r ∷ q) h a = (ground (arith, a.0), waits now p q h a.1)

run-Cut :
    (now : Timeval) (events marks : List Entry) (n : ℕ)
    → Sorted events
    → length events < n
    → (w : World (List Entry)) × (out : Option Timeval) × (process_schedule record_run
          (clock_at n now)
          (record { events = events; rest = marks })
        ≡ some (w, out))
      × Cut now events marks w
run-Cut now events marks zero s h = absurd (omega arith)
run-Cut now [] marks (suc n) s h = (
  record { events = []; rest = marks },
  none,
  step-empty record_run now (clock_at n now) marks,
  record { ran = []; splits = refl; marked = sym (append-nil marks); due = tt; waiting = tt },
)
run-Cut now (p ∷ q) marks (suc n) s h = elim (Bool-cases (tvlesseq p.tv now)) [
  | inl d ↦
      let (w, out, e, c) = run-Cut now q (marks ++ (p ∷ [])) n s.1 (omega arith) in
      (
        w,
        out,
        step-run record_run now (clock_at n now) marks p q d ∙ e,
        record {
          ran = p ∷ c.ran;
          splits = ap (◌∷◌ p) c.splits;
          marked = c.marked ∙ append_assoc marks (p ∷ []) c.ran;
          due = (d, c.due);
          waiting = c.waiting;
        },
      )
  | inr later ↦ (
    record { events = p ∷ q; rest = marks },
    some (wait_time p.tv now),
    step-stop record_run now (clock_at n now) marks p q later,
    record {
      ran = [];
      splits = refl;
      marked = sym (append-nil marks);
      due = tt;
      waiting = (later, waits now p q later s.0);
    },
  )
]

-- From a queue in order, at a clock that stands still, with callbacks that leave a mark each, the loop
-- ends; exactly the events that are due run, in the order of the queue, and the others stay.
pub process_schedule-Cut :
    (now : Timeval) (events : List Entry)
    → Sorted events
    → (w : World (List Entry)) × (out : Option Timeval) × (process_schedule record_run
          (clock_at (suc (length events)) now)
          (record { events = events; rest = [] })
        ≡ some (w, out))
      × Cut now events [] w
process_schedule-Cut now events s = run-Cut now events [] (suc (length events)) s (omega arith)
