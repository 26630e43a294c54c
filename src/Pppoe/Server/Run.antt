-- ===== src/Pppoe/Server/Run.antt =====
-- Any run of allocations and releases on the pool that `main` makes.
use zy_agf.Prelude.{
  ℕ, zero, suc, ◌+◌, ◌<◌, Bool, Option, none, some, List, [], ◌∷◌, ◌++◌, ltb, if◌then◌else◌, length,
  length-append, ◌>>=◌, ◌≡◌, refl, sym, ap, subst, ◌∙◌, arith, Bool-cases, lt→ltb, le→ltb, inl, inr,
}
use zy_agf.Pppoe.Relay.{remove, indices}
use zy_agf.Pppoe.Relay.Table.{elem}
use zy_agf.Pppoe.Relay.Invariant.Lists.{length-remove}
use zy_agf.Pppoe.Relay.Invariant.Reach.{nodup-indices, length-indices}
use zy_agf.Pppoe.Server.{Pool, init_pool, pppoe_alloc_session, pppoe_free_session}
use zy_agf.Pppoe.Server.Lists.{Chain, last_of}
use zy_agf.Pppoe.Server.Alloc.{Holds, pppoe_alloc_session-Holds, pppoe_alloc_session-none}
use zy_agf.Pppoe.Server.Release.{pppoe_free_session-Holds, pppoe_free_session_idle}

-- The calls on the pool: an allocation at a time, a release of a session.
pub data Op : Type 0 where
  alloc release : ℕ → Op

abbrev pub run : ℕ → List Op → Pool → Option Pool
run fuel [] p = some p
run fuel (alloc time ∷ ops) p = run fuel ops (pppoe_alloc_session time p).1
run fuel (release s ∷ ops) p = pppoe_free_session fuel s p >>= λ r. run fuel ops r.1

-- The same on a queue of free sessions and a list of busy ones.
abbrev pub run_queue : List Op → List ℕ → List ℕ → List ℕ × List ℕ
run_queue [] free busy = (free, busy)
run_queue (alloc time ∷ ops) [] busy = run_queue ops [] busy
run_queue (alloc time ∷ ops) (s ∷ free) busy = run_queue ops free (s ∷ busy)
run_queue (release s ∷ ops) free busy =
    let idle = run_queue ops free busy in
    let freed = run_queue ops (free ++ (s ∷ [])) (remove s busy) in
    if elem s busy then freed else idle

run-Holds :
    (fuel : ℕ) (ops : List Op) (p : Pool) (free busy : List ℕ)
    → Holds p free busy
    → length free + length busy < fuel
    → (p' : Pool) × (run fuel ops p ≡ some p')
      × Holds p' (run_queue ops free busy).0 (run_queue ops free busy).1
run-Holds fuel [] p free busy h e = (p, refl, h)
run-Holds fuel (alloc time ∷ ops) p [] busy h e =
    let q = pppoe_alloc_session-none time p busy h in
    let (p', r, k) = run-Holds fuel ops p [] busy h e in
    (p', ap (λ (x : Option ℕ × Pool). run fuel ops x.1) q ∙ r, k)
run-Holds fuel (alloc time ∷ ops) p (s ∷ free) busy h e =
    let (p1, q, h1) = pppoe_alloc_session-Holds time p s free busy h in
    let (p', r, k) = run-Holds fuel ops p1 free (s ∷ busy) h1 (omega arith) in
    (p', ap (λ (x : Option ℕ × Pool). run fuel ops x.1) q ∙ r, k)
run-Holds fuel (release s ∷ ops) p free busy h e = elim (Bool-cases (elem s busy)) [
  | inl m ↦
      let (p1, q, h1) = pppoe_free_session-Holds fuel s p free busy h m (omega arith) in
      let (p', r, k) =
        run-Holds fuel ops p1 (free ++ (s ∷ [])) (remove s busy) h1
          (omega (arith, length-append free (s ∷ []), length-remove s busy m)) in
      (p', ap (λ o. o >>= λ r. run fuel ops r.1) q ∙ r, rw m k)
  | inr m ↦
      let q = pppoe_free_session_idle fuel s p free busy h m (omega arith) in
      let (p', r, k) = run-Holds fuel ops p free busy h e in
      (p', ap (λ o. o >>= λ r. run fuel ops r.1) q ∙ r, rw m k)
]

last_of-indices : (i k : ℕ) → last_of (indices i (suc k)) ≡ some (i + k)
unfolding indices
last_of-indices i zero = ap (λ x. some x) (omega arith)
last_of-indices i (suc k) = last_of-indices (i + 1) k ∙ ap (λ x. some x) (omega arith)

Chain-indices :
    (n k i : ℕ)
    → i + k ≡ n
    → Chain
        (λ j. if ltb (j + 1) n then some (j + 1) else none)
        (if ltb i n then some i else none)
        (indices i k)
unfolding indices
Chain-indices n zero i e = rw (le→ltb i n (omega arith)) refl
Chain-indices n (suc k) i e =
    (rw (lt→ltb i n (omega arith)) refl, Chain-indices n k (i + 1) (omega arith))

pub init_pool-Holds : (k : ℕ) → Holds (init_pool (suc k)) (indices 0 (suc k)) []
unfolding init_pool
init_pool-Holds k = record {
  free_chain =
      subst
        (λ o. Chain (λ j. if ltb (j + 1) (suc k) then some (j + 1) else none) o (indices 0 (suc k)))
        (ap (λ (c : Bool). if c then some 0 else none) (lt→ltb 0 (suc k) (omega arith)))
        (Chain-indices (suc k) (suc k) 0 (omega arith));
  busy_chain = refl;
  last = sym (last_of-indices 0 k ∙ ap (λ x. some x) (omega arith));
  free_once = nodup-indices 0 (suc k);
  busy_once = refl;
  apart = λ s e. refl;
  count = refl;
}

-- From the pool of `n` sessions, one at least, any run of allocations and releases returns, and leaves a
-- pool whose pointers hold the free sessions as the queue, and the busy ones as the list, that the same run
-- makes of the queue of all sessions. Fuel above the number of sessions is enough.
pub run-init_pool :
    (fuel n : ℕ) (ops : List Op)
    → 0 < n
    → n < fuel
    → (p' : Pool) × (run fuel ops (init_pool n) ≡ some p')
      × Holds p' (run_queue ops (indices 0 n) []).0 (run_queue ops (indices 0 n) []).1
run-init_pool fuel zero ops p e = absurd (omega arith)
run-init_pool fuel (suc k) ops p e =
    run-Holds fuel ops (init_pool (suc k)) (indices 0 (suc k)) [] (init_pool-Holds k)
      (omega (arith, length-indices 0 (suc k)))
