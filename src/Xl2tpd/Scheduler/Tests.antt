-- ===== src/Xl2tpd/Scheduler/Tests.antt =====
-- Tests and examples of the scheduler.
use zy_agf.Prelude.{◌+◌, ◌++◌, Option, some, List, [], ◌∷◌, ◌≡◌, refl, arith}
use zy_agf.Xl2tpd.Scheduler.{
  Timeval, Entry, World, due, schedule, insert, wait_time, process_schedule,
}
use zy_agf.Xl2tpd.Scheduler.Order.{Placed, InOrder, micros, schedule-Placed}
use zy_agf.Xl2tpd.Scheduler.Process.{record_run}
use zy_agf.Xl2tpd.Scheduler.Ends.{Op, scheduled, callback, Ends, process_schedule_total}

abbrev now : Timeval
now = record { tv_sec = 100; tv_usec = 700000 }

abbrev half : Timeval
half = record { tv_sec = 0; tv_usec = 500000 }

abbrev first : Entry
first = record { tv = record { tv_sec = 100; tv_usec = 600000 }; func = 1; arg = 10; addr = 1000 }

abbrev second : Entry
second = record { tv = record { tv_sec = 101; tv_usec = 200000 }; func = 2; arg = 20; addr = 2000 }

abbrev third : Entry
third = record { tv = record { tv_sec = 102; tv_usec = 0 }; func = 3; arg = 30; addr = 3000 }

abbrev queue : List Entry
queue = first ∷ second ∷ third ∷ []

-- Due at the same time as the second entry: it goes behind it.
schedule_behind :
    schedule now half 4 40 4000 queue
    ≡ first
      ∷ second
      ∷ record { tv = record { tv_sec = 101; tv_usec = 200000 }; func = 4; arg = 40; addr = 4000 }
      ∷ third
      ∷ []
unfolding schedule insert due
schedule_behind = refl

schedule-Placed_example :
    Placed
      (micros now + micros half)
      (record { tv = due now half; func = 4; arg = 40; addr = 4000 })
      queue
      (schedule now half 4 40 4000 queue)
schedule-Placed_example =
    schedule-Placed now half 4 40 4000 queue (omega arith) (omega arith) (omega arith)
      (omega arith, (omega arith, (omega arith, tt)))
      ((omega arith, (omega arith, tt)), ((omega arith, tt), (tt, tt)))

-- Microseconds that add up to one second are not carried.
due_full : (due half half).tv_usec ≡ 1000000
unfolding due
due_full = refl

-- As `control_xmit` does: the event is scheduled again for a second later.
abbrev again : Entry → List Entry → List Op
again e x = scheduled now (record { tv_sec = 1; tv_usec = 0 }) e.func e.arg e.addr ∷ []

abbrev mark : Entry → List Entry → List Entry
mark e x = x ++ (e ∷ [])

process_schedule_total_example :
    (w' : World (List Entry)) × (out : Option Timeval) × (process_schedule
        (callback again mark)
        (now ∷ now ∷ now ∷ now ∷ [])
        (record { events = queue; rest = [] })
      ≡ some (w', out))
    × InOrder w'.events
    × Ends (now ∷ now ∷ now ∷ now ∷ []) w' out
process_schedule_total_example =
    process_schedule_total (micros now) again mark
      (λ e x. ((omega arith, omega arith, omega arith), tt)) (now ∷ now ∷ now ∷ now ∷ [])
      (record { events = queue; rest = [] })
      (
        (omega arith, omega arith),
        (
          (omega arith, omega arith),
          ((omega arith, omega arith), ((omega arith, omega arith), tt)),
        ),
      )
      (omega arith, (omega arith, (omega arith, tt)))
      ((omega arith, (omega arith, tt)), ((omega arith, tt), (tt, tt))) (omega arith)

process_schedule-first :
    process_schedule record_run (now ∷ now ∷ []) (record { events = queue; rest = [] })
    ≡ some (
      record { events = second ∷ third ∷ []; rest = first ∷ [] },
      some (record { tv_sec = 0; tv_usec = 500000 }),
    )
unfolding process_schedule wait_time
process_schedule-first = refl
