-- ===== src/Pppoe/Discovery/Bounded.antt =====
-- rp-pppoe/src/discovery.c: how many waits `discovery` has without `persist`.
use zy_agf.Prelude.{
  All, >>=_some, some_inj, ℕ, suc, ◌-◌, ◌≤◌, ◌<◌, false, Option, some, List, [], ◌∷◌, ◌≡◌, ◌≢◌,
  arith, length, length-append, subst,
}
use zy_agf.Pppoe.Packet.{Packet}
use zy_agf.Pppoe.Discovery.{Arrival, Conn, Waited, wait_for_pado, wait_for_pads}
use zy_agf.Pppoe.Discovery.Reads.{IsWholeWait, run_from_total}
use zy_agf.Pppoe.Discovery.Run.{
  Phase, padi_loop, padr_loop, End, not_yet, Turn, padi, padr, over, Then, again, ends,
  names_printed, after_padi, next_turn, padi_waited, padr_waited, take_turn, so_far, follow,
  run_from, discovery,
}

-- How many packets may still be sent.
abbrev budget : Phase → ℕ
budget (padi_loop n t) = 6 - n
budget (padr_loop n t) = 3 - n

-- No loop counts above three.
abbrev Counted : Phase → Type 0
Counted (padi_loop n t) = n ≤ 3
Counted (padr_loop n t) = n ≤ 3

-- What a turn leads to from a phase with `b` packets to send: nothing more, or a phase with fewer.
abbrev Falls : ℕ → Then → Type 0
Falls b (again conn phase) = Counted phase × (budget phase < b)
Falls b (ends end) = end ≢ not_yet

padi_waited-Falls : (n t : ℕ) (w : Waited) → 0 < n → n ≤ 3 → Falls (7 - n) (padi_waited n t w)
unfolding padi_waited names_printed
padi_waited-Falls n t w p q = ground arith

padr_waited-Falls : (n t : ℕ) (w : Waited) → 0 < n → n ≤ 3 → Falls (4 - n) (padr_waited n t w)
unfolding padr_waited
padr_waited-Falls n t w p q = ground arith

-- A turn that a phase with `b` packets to send may take.
abbrev Allows : ℕ → Turn → Type 0
Allows b (padi m t) = (0 < m) × (m ≤ 3) × (7 - m ≤ b)
Allows b (padr m t) = (0 < m) × (m ≤ 3) × (4 - m ≤ b)
Allows b (over end) = end ≢ not_yet

next_turn-Allows :
    (conn : Conn) (phase : Phase)
    → Counted phase
    → Allows (budget phase) (next_turn false conn phase)
unfolding next_turn after_padi names_printed
next_turn-Allows conn (padi_loop n t) h = ground arith
next_turn-Allows conn (padr_loop n t) h = ground arith

Falls-le : (a b : ℕ) (next : Then) → a ≤ b → Falls a next → Falls b next
Falls-le a b (again conn phase) le (c, h) = (c, omega arith)
Falls-le a b (ends end) le h = h

-- A turn sends at most one packet where it may send one, and then there are fewer to send.
take_turn-Falls :
    (b : ℕ) (conn : Conn) (wait : Packet × List Arrival) (turn : Turn) {sent : List (Option Packet)}
    {next : Then}
    → Allows b turn
    → take_turn false conn wait turn ≡ some (sent, next)
    → Falls b next × (length sent ≤ 1) × (length sent ≤ b)
unfolding take_turn
take_turn-Falls b conn (packet, arrivals) (padi m t) (p, q, r) e =
    let (w, e1, e2) = >>=_some (wait_for_pado false _ packet arrivals) _ e in
    subst (λ x. Falls b x.1 × (length x.0 ≤ 1) × (length x.0 ≤ b)) (some_inj e2)
      (Falls-le (7 - m) b _ r (padi_waited-Falls m t w p q), omega arith, omega arith)
take_turn-Falls b conn (packet, arrivals) (padr m t) (p, q, r) e =
    let (w, e1, e2) = >>=_some (wait_for_pads _ packet arrivals) _ e in
    subst (λ x. Falls b x.1 × (length x.0 ≤ 1) × (length x.0 ≤ b)) (some_inj e2)
      (Falls-le (4 - m) b _ r (padr_waited-Falls m t w p q), omega arith, omega arith)
take_turn-Falls b conn wait (over end) h e =
    subst (λ x. Falls b x.1 × (length x.0 ≤ 1) × (length x.0 ≤ b)) (some_inj e)
      (h, omega arith, omega arith)

-- The packets sent and the end, where `b` packets may be sent and there are `n` waits.
abbrev pub Within : ℕ → ℕ → List (Option Packet) × End → Type 0
Within b n (sent, end) = (length sent ≤ b) × (b ≤ n → end ≢ not_yet)

so_far-Within : (b : ℕ) (turn : Turn) → Allows b turn → Within b 0 ([], so_far turn)
unfolding so_far
so_far-Within b (padi m t) (p, q, r) = (omega arith, λ h. absurd (omega arith))
so_far-Within b (padr m t) (p, q, r) = (omega arith, λ h. absurd (omega arith))
so_far-Within b (over end) h = (omega arith, λ _. h)

follow-Within :
    (b n : ℕ) (sent : List (Option Packet)) (next : Then)
    (go_on : Conn → Phase → Option (List (Option Packet) × End)) {r : List (Option Packet) × End}
    → Falls b next × (length sent ≤ 1) × (length sent ≤ b)
    → ((conn : Conn) (phase : Phase) (r' : List (Option Packet) × End)
        → Counted phase
        → go_on conn phase ≡ some r'
        → Within (budget phase) n r')
    → follow sent next go_on ≡ some r
    → Within b (suc n) r
unfolding follow
follow-Within b n sent (ends end) go_on (h, one, most) k q =
    subst (Within b (suc n)) (some_inj q) (most, λ _. h)
follow-Within b n sent (again conn phase) go_on ((c, less), one, most) k q =
    let ((later, end), e, q') = >>=_some (go_on conn phase) _ q in
    let (few, stops) = k conn phase (later, end) c e in
    subst (Within b (suc n)) (some_inj q')
      (omega (arith, length-append sent later), λ h. stops (omega arith))

run_from-Within :
    (waits : List (Packet × List Arrival)) (conn : Conn) (phase : Phase)
    {r : List (Option Packet) × End}
    → Counted phase
    → run_from false conn phase waits ≡ some r
    → Within (budget phase) (length waits) r
unfolding run_from
run_from-Within [] conn phase c q =
    subst (Within (budget phase) 0) (some_inj q)
      (so_far-Within (budget phase) _ (next_turn-Allows conn phase c))
run_from-Within (wait ∷ waits) conn phase c q =
    let ((sent, next), e, q') = >>=_some (take_turn false conn wait _) _ q in
    follow-Within (budget phase) (length waits) sent next _
      (take_turn-Falls (budget phase) conn wait (next_turn false conn phase)
        (next_turn-Allows conn phase c) e)
      (λ conn' phase' r' c'. run_from-Within waits conn' phase' c') q'

-- Without `persist`, whatever arrives and fails to arrive, in variables and packets whose arrays are
-- whole, the run reads only inside the
-- arrays and sends at most six packets; and where there are six waits or more it has an end: `discovery`
-- has returned or the process has left.
pub discovery-Within :
    (conn : Conn) (waits : List (Packet × List Arrival))
    → All IsWholeWait waits
    → (r : List (Option Packet) × End) × (discovery false conn waits ≡ some r)
      × Within 6 (length waits) r
unfolding discovery
discovery-Within conn waits whole =
    let (r, e) = run_from_total false waits conn (padi_loop 0 conn.discovery_timeout) whole in
    (r, e, run_from-Within waits conn (padi_loop 0 conn.discovery_timeout) (omega arith) e)
