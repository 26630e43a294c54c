-- ===== src/Pppoe/Server/Tests.antt =====
-- Tests and examples of the pool: three sessions, of which two are taken and the first is given back.
use zy_agf.Prelude.{ℕ, ◌+◌, none, some, List, [], ◌∷◌, ◌≡◌, refl, arith}
use zy_agf.Pppoe.Relay.{indices, remove, update}
use zy_agf.Pppoe.Server.{Pool, init_pool, pppoe_alloc_session, process_padt}
use zy_agf.Pppoe.Server.Alloc.{Holds, pppoe_alloc_session-Holds}
use zy_agf.Pppoe.Server.Run.{Op, alloc, release, run, run_queue, init_pool-Holds, run-init_pool}
use zy_agf.Pppoe.Packet.{Packet, code_padt}
use zy_agf.Pppoe.Server.Padt.{Padt, process_padt-Padt}

abbrev ops : List Op
ops = alloc 5 ∷ alloc 6 ∷ release 0 ∷ []

-- What the run makes of the queue.
queue : run_queue ops (indices 0 3) [] ≡ (2 ∷ 0 ∷ [], 1 ∷ [])
unfolding indices remove
queue = refl

run-init_pool_example :
    (p : Pool) × (run 4 ops (init_pool 3) ≡ some p)
    × Holds p (run_queue ops (indices 0 3) []).0 (run_queue ops (indices 0 3) []).1
run-init_pool_example = run-init_pool 4 3 ops (omega arith) (omega arith)

alloc_first :
    (p : Pool) × (pppoe_alloc_session 5 (init_pool 3) ≡ (some 0, p)) × Holds p (1 ∷ 2 ∷ []) (0 ∷ [])
unfolding indices
alloc_first = pppoe_alloc_session-Holds 5 (init_pool 3) 0 (1 ∷ 2 ∷ []) [] (init_pool-Holds 2)

-- The client of session 1, and its PADT.
abbrev client : List ℕ
client = 2 ∷ 0 ∷ 0 ∷ 0 ∷ 0 ∷ 1 ∷ []

abbrev server : List ℕ
server = 4 ∷ 0 ∷ 0 ∷ 0 ∷ 0 ∷ 1 ∷ []

abbrev in_use : Pool
in_use = record {
  next = λ i. none;
  free_sessions = none;
  last_free = none;
  busy_sessions = some 1;
  num_active = 1;
  slots = λ i. record { pid = 7; eth = client; flags = 0; start_time = 0; requested_mtu = 0 };
}

abbrev padt : Packet
padt = record {
  dest = server;
  source = client;
  proto = 34915;
  vertype = 17;
  code = code_padt;
  session = 2;
  length = 0;
  payload = [];
}

-- A function that ends the child.
abbrev kill : ℕ → Pool → Pool
kill i p = record p { slots = update p.slots i (record (p.slots i) { pid = 0 }) }

process_padt-Padt_example :
    Padt kill server 3
      (λ i. i + 1)
      padt
      in_use
      (process_padt kill server 0 3 (λ i. i + 1) padt in_use)
process_padt-Padt_example = process_padt-Padt kill server 0 3 (λ i. i + 1) padt in_use
