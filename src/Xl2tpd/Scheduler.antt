-- ===== src/Xl2tpd/Scheduler.antt =====
-- xl2tpd/scheduler.c: the queue of timed events. The linked list is a list of entries; an entry's
-- `addr` stands for the pointer by which `deschedule` names it. Absolute times and the delays given
-- to `schedule` are not negative. The clock is a list of the readings of `gettimeofday`.
pub mod Order
pub mod Process
pub mod Ends
mod Tests
use zy_agf.Prelude.{
  ℕ, zero, suc, ◌+◌, ◌-◌, ◌*◌, Bool, true, false, Option, none, some, List, [], ◌∷◌, ◌==◌, ltb, leb,
  if◌then◌else◌,
}

-- `struct timeval`
pub record Timeval : Type 0 where
  pub tv_sec : ℕ
  pub tv_usec : ℕ

-- `struct schedule_entry`; `func` and `arg` stand for the function pointer and its argument.
pub record Entry : Type 0 where
  pub tv : Timeval
  pub func : ℕ
  pub arg : ℕ
  pub addr : ℕ

abbrev pub tvless : Timeval → Timeval → Bool
tvless a b = if a.tv_sec == b.tv_sec then ltb a.tv_usec b.tv_usec else ltb a.tv_sec b.tv_sec

abbrev pub tvlesseq : Timeval → Timeval → Bool
tvlesseq a b = if a.tv_sec == b.tv_sec then leb a.tv_usec b.tv_usec else leb a.tv_sec b.tv_sec

unfoldable pub init_scheduler : List Entry
init_scheduler = []

-- The relative time `diff` added to the current time, with the carry.
unfoldable pub due : Timeval → Timeval → Timeval
due now diff =
    let sec = now.tv_sec + diff.tv_sec in
    let usec = now.tv_usec + diff.tv_usec in
    if ltb 1000000 usec
    then record { tv_sec = sec + 1; tv_usec = usec - 1000000 }
    else record { tv_sec = sec; tv_usec = usec }

-- The loop: the new entry is linked in front of the first one that is later.
unfoldable pub insert : Entry → List Entry → List Entry
insert e [] = e ∷ []
insert e (p ∷ q) = if tvless e.tv p.tv then e ∷ p ∷ q else p ∷ insert e q

-- `addr` is the address that `malloc` returns.
unfoldable pub schedule : Timeval → Timeval → ℕ → ℕ → ℕ → List Entry → List Entry
schedule now tv func arg addr events =
    insert (record { tv = due now tv; func = func; arg = arg; addr = addr }) events

unfoldable pub remove : ℕ → List Entry → List Entry
remove s [] = []
remove s (p ∷ q) = if p.addr == s then q else p ∷ remove s q

-- `none` is a null pointer.
unfoldable pub deschedule : Option ℕ → List Entry → List Entry
deschedule none events = events
deschedule (some s) events = remove s events

-- The delay until the first entry, computed at a time `now` before it.
unfoldable pub wait_time : Timeval → Timeval → Timeval
wait_time event now =
    let borrow = ltb event.tv_usec now.tv_usec in
    let sec = if borrow then event.tv_sec - now.tv_sec - 1 else event.tv_sec - now.tv_sec in
    let usec =
      if borrow then event.tv_usec + 1000000 - now.tv_usec else event.tv_usec - now.tv_usec in
    if sec == 0
    then (if usec == 0
        then record { tv_sec = 1; tv_usec = 0 }
        else record { tv_sec = sec; tv_usec = usec })
    else record { tv_sec = sec; tv_usec = usec }

-- What the callbacks act on: the queue, and all else.
pub record World (S : Type 0) : Type 0 where
  pub events : List Entry
  pub rest : S

-- What one round of the loop does at the time `now`: run the first entry, or stop.
-- `call` is `(*p->func) (p->data)`; it may change the queue.
unfoldable pub process_schedule :
    {S : Type 0}
    → (Entry → World S → World S)
    → List Timeval
    → World S
    → Option (World S × Option Timeval)
process_schedule call [] w = elim w.events [ [] ↦ some (w, none) | p ∷ q ↦ none ]
process_schedule call (now ∷ clock) w = elim w.events [
  | [] ↦ some (w, none)
  | p ∷ q ↦ elim (tvlesseq p.tv now) [
    | true ↦ process_schedule call clock (call p (record w { events = q }))
    | false ↦ some (w, some (wait_time p.tv now))
  ]
]
