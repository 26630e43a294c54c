-- ===== src/Pppoe/Discovery/Run.antt =====
-- rp-pppoe/src/discovery.c: `discovery`, without `skipDiscovery`. Its run is driven by the list of what
-- arrives in each wait, with what lies in the wait's variable `packet` at first; where that list ends
-- and a packet is to be sent, it is not over.
use zy_agf.Prelude.{
  ◌>>=◌, ℕ, suc, ◌*◌, Bool, true, false, not, ◌&&◌, Option, some, List, [], ◌∷◌, ◌++◌, ◌==◌, ltb,
  if◌then◌else◌,
}
use zy_agf.Pppoe.Packet.{Packet}
use zy_agf.Pppoe.Discovery.{
  Arrival, DiscoveryState, sent_padi, sent_padr, in_session, Conn, Waited, left, back,
  wait_for_pado, wait_for_pads,
}
use zy_agf.Pppoe.Discovery.Send.{send_padi, send_padr}

abbrev pub max_padi_attempts : ℕ
max_padi_attempts = 3

-- Where the function stands before a packet is sent: in the loop of PADIs or of PADRs, with the attempts
-- made and the timeout.
pub data Phase : Type 0 where
  padi_loop padr_loop : ℕ → ℕ → Phase

-- The end: the function returned, or the process left with success or failure; or there is no end yet.
pub data End : Type 0 where
  returned : Conn → End
  exit_success exit_failure not_yet : End

-- What is sent next, with the attempts counted and the timeout.
pub data Turn : Type 0 where
  padi padr : ℕ → ℕ → Turn
  over : End → Turn

-- `exit` where only names are printed.
unfoldable pub names_printed : Conn → End
names_printed conn = if conn.num_pados == 0 then exit_failure else exit_success

-- Behind the loop of PADIs.
unfoldable pub after_padi : Conn → Turn
after_padi conn =
    if conn.print_ac_names then over (names_printed conn) else padr 1 conn.discovery_timeout

-- The head of a loop: the attempt is counted, and after the last one the loop starts again or ends.
unfoldable pub next_turn : Bool → Conn → Phase → Turn
next_turn persist conn (padi_loop attempts timeout) =
    if not (ltb max_padi_attempts (suc attempts))
    then padi (suc attempts) timeout
    else if persist
    then padi 0 conn.discovery_timeout
    else after_padi conn
next_turn persist conn (padr_loop attempts timeout) =
    if not (ltb max_padi_attempts (suc attempts))
    then padr (suc attempts) timeout
    else if persist
    then padi 1 conn.discovery_timeout
    else over (returned conn)

abbrev is_sent_padi : DiscoveryState → Bool
is_sent_padi sent_padi = true
is_sent_padi _ = false

abbrev is_sent_padr : DiscoveryState → Bool
is_sent_padr sent_padr = true
is_sent_padr _ = false

-- What follows a turn: the function goes on at the head of a loop, or ends.
pub data Then : Type 0 where
  again : Conn → Phase → Then
  ends : End → Then

-- The end of a round of the loop of PADIs.
unfoldable pub padi_waited : ℕ → ℕ → Waited → Then
padi_waited attempts timeout left = ends exit_failure
padi_waited attempts timeout (back conn) =
    let timeout' = if conn.print_ac_names then timeout else timeout * 2 in
    if conn.print_ac_names && not (conn.num_pados == 0)
    then ends (names_printed conn)
    else if is_sent_padi conn.discovery_state
    then again conn (padi_loop attempts timeout')
    else if conn.print_ac_names
    then ends (names_printed conn)
    else again conn (padr_loop 0 conn.discovery_timeout)

unfoldable pub padr_waited : ℕ → ℕ → Waited → Then
padr_waited attempts timeout left = ends exit_failure
padr_waited attempts timeout (back conn) =
    if is_sent_padr conn.discovery_state
    then again conn (padr_loop attempts (timeout * 2))
    else ends (returned (record conn { discovery_state = in_session }))

-- A packet is sent and what arrives is looked at.
unfoldable pub take_turn :
    Bool → Conn → Packet × List Arrival → Turn → Option (List (Option Packet) × Then)
take_turn persist conn (packet, arrivals) (padi attempts timeout) = do
  waited ← wait_for_pado persist (record conn { discovery_state = sent_padi }) packet arrivals
  some (send_padi conn ∷ [], padi_waited attempts timeout waited)
take_turn persist conn (packet, arrivals) (padr attempts timeout) = do
  waited ← wait_for_pads (record conn { discovery_state = sent_padr }) packet arrivals
  some (send_padr conn ∷ [], padr_waited attempts timeout waited)
take_turn persist conn wait (over end) = some ([], ends end)

-- The end, where nothing more is waited for.
unfoldable pub so_far : Turn → End
so_far (over end) = end
so_far (padi attempts timeout) = not_yet
so_far (padr attempts timeout) = not_yet

-- What follows a turn that sent `sent`.
unfoldable pub follow :
    List (Option Packet)
    → Then
    → (Conn → Phase → Option (List (Option Packet) × End))
    → Option (List (Option Packet) × End)
follow sent (ends end) go_on = some (sent, end)
follow sent (again conn phase) go_on = do (later, end) ← go_on conn phase; some (sent ++ later, end)

-- The packets sent, with `none` for one that would have been too long, and the end.
unfoldable pub run_from :
    Bool → Conn → Phase → List (Packet × List Arrival) → Option (List (Option Packet) × End)
run_from persist conn phase [] = some ([], so_far (next_turn persist conn phase))
run_from persist conn phase (wait ∷ waits) = do
  (sent, then') ← take_turn persist conn wait (next_turn persist conn phase)
  follow sent then' (λ conn' phase'. run_from persist conn' phase' waits)

unfoldable pub discovery :
    Bool → Conn → List (Packet × List Arrival) → Option (List (Option Packet) × End)
discovery persist conn waits = run_from persist conn (padi_loop 0 conn.discovery_timeout) waits
