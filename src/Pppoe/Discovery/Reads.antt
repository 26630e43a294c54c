-- ===== src/Pppoe/Discovery/Reads.antt =====
-- rp-pppoe/src/discovery.c: the reads of the packets that arrive.
use zy_agf.Prelude.{
  ◌>>=◌, ℕ, Bool, true, false, Option, none, some, List, [], ◌∷◌, ◌≡◌, refl, length, if◌then◌else◌,
  All, Bool-cases, inl, inr,
}
use zy_agf.Pppoe.Packet.{Packet, eth_jumbo_len}
use zy_agf.Pppoe.Tags.{ParseFunc, parse_packet, is_sane}
use zy_agf.Pppoe.Tags.Parse.{parse_packet_total}
use zy_agf.Pppoe.Discovery.{
  DiscoveryState, Arrival, received, failed, arrived, is_received_pado, is_in_session, Conn, Waited,
  Seen, more, ended, packet_is_for_me, parse_for_host_uniq, parse_pado_tags, parse_pads_tags,
  see_pado, see_pads, after_seen, wait_for_pado, wait_for_pads,
}
use zy_agf.Pppoe.Discovery.Run.{
  Phase, End, Turn, padi, padr, over, Then, again, ends, next_turn, take_turn, follow, run_from,
}

-- A packet whose array has all its bytes.
abbrev pub IsWhole : Packet → Type 0
IsWhole p = length p.payload ≡ eth_jumbo_len

-- What arrives is whole.
abbrev pub IsWholeArrival : Arrival → Type 0
IsWholeArrival (received p len) = IsWhole p
IsWholeArrival failed = Unit

-- A wait: what lies in its variable `packet` at first, and what arrives.
abbrev pub IsWholeWait : Packet × List Arrival → Type 0
IsWholeWait (packet, arrivals) = IsWhole packet × All IsWholeArrival arrivals

pub arrived-IsWhole :
    (packet : Packet) (a : Arrival)
    → IsWhole packet
    → IsWholeArrival a
    → IsWhole (arrived packet a).0
arrived-IsWhole packet (received p len) w k = k
arrived-IsWhole packet failed w k = w

abbrev Given : {A : Type 0} → Option A → Type 0
Given {A} o = (a : A) × (o ≡ some a)

Given-if : {A : Type 0} (b : Bool) {x y : Option A} → Given x → Given y → Given (if b then x else y)
Given-if true p q = p
Given-if false p q = q

Given-bind :
    {A B : Type 0} {o : Option A} (f : A → Option B)
    → Given o
    → ((a : A) → Given (f a))
    → Given (o >>= f)
Given-bind f (a, p) q = rw p (q a)

pub parse_packet-insane :
    {E : Type 0} (func : ParseFunc E) (p : Packet) (e : E)
    → is_sane p ≡ false
    → parse_packet func p e ≡ some (false, e)
unfolding parse_packet
parse_packet-insane func p e odd = rw odd refl

parse_packet-Given :
    {E : Type 0} (func : ParseFunc E) (p : Packet) (e : E)
    → length p.payload ≡ eth_jumbo_len
    → Given (parse_packet func p e)
parse_packet-Given func p e whole = elim (Bool-cases (is_sane p)) [
  | inl sane ↦ let (ts, ok, reads, q) = parse_packet_total func p e sane whole in (_, q)
  | inr odd ↦ (_, parse_packet-insane func p e odd)
]

packet_is_for_me-Given :
    (conn : Conn) (p : Packet) → length p.payload ≡ eth_jumbo_len → Given (packet_is_for_me conn p)
unfolding packet_is_for_me
packet_is_for_me-Given conn p whole = Given-if _ (_, refl) (by_tag conn.host_uniq)
  where
    by_tag :
        (o : Option (List ℕ))
        → Given (elim o as (λ x. Option Bool) [
          | none ↦ some true
          | some name ↦
              parse_packet (parse_for_host_uniq (some name)) p false >>= λ (ok, for_me). some for_me
        ])
    by_tag none = (true, refl)
    by_tag (some name) = Given-bind _ (parse_packet-Given _ p false whole) (λ r. (r.1, refl))

see_pado-Given :
    (persist : Bool) (conn : Conn) (p : Packet) (len : ℕ)
    → length p.payload ≡ eth_jumbo_len
    → Given (see_pado persist conn p len)
unfolding see_pado
see_pado-Given persist conn p len whole =
    Given-if _ (_, refl)
      (Given-bind _ (packet_is_for_me-Given conn p whole) (λ m.
        Given-if _ (_, refl)
          (Given-bind _ (parse_packet-Given (parse_pado_tags persist) p _ whole) (λ r. (_, refl)))))

see_pads-Given :
    (conn : Conn) (p : Packet) (len : ℕ)
    → length p.payload ≡ eth_jumbo_len
    → Given (see_pads conn p len)
unfolding see_pads
see_pads-Given conn p len whole =
    Given-if _ (_, refl)
      (Given-bind _ (packet_is_for_me-Given conn p whole) (λ m.
        Given-if _ (_, refl)
          (Given-bind _ (parse_packet-Given parse_pads_tags p _ whole) (λ r. (_, refl)))))

after_seen-Given :
    (met : DiscoveryState → Bool) (seen : Seen) (go_on : Conn → Option Waited)
    → ((conn : Conn) → Given (go_on conn))
    → Given (after_seen met seen go_on)
unfolding after_seen
after_seen-Given met (more conn) go_on k = Given-if (met conn.discovery_state) (_, refl) (k conn)
after_seen-Given met (ended w) go_on k = (w, refl)

wait_for_pado-Given :
    (persist : Bool) (arrivals : List Arrival) (packet : Packet) (conn : Conn)
    → IsWhole packet
    → All IsWholeArrival arrivals
    → Given (wait_for_pado persist conn packet arrivals)
unfolding wait_for_pado
wait_for_pado-Given persist [] packet conn w h = (_, refl)
wait_for_pado-Given persist (a ∷ arrivals) packet conn w (k, h) =
    let whole = arrived-IsWhole packet a w k in
    Given-bind _ (see_pado-Given persist conn (arrived packet a).0 (arrived packet a).1 whole)
      (λ seen.
        after_seen-Given is_received_pado seen _
          (λ conn'. wait_for_pado-Given persist arrivals (arrived packet a).0 conn' whole h))

wait_for_pads-Given :
    (arrivals : List Arrival) (packet : Packet) (conn : Conn)
    → IsWhole packet
    → All IsWholeArrival arrivals
    → Given (wait_for_pads conn packet arrivals)
unfolding wait_for_pads
wait_for_pads-Given [] packet conn w h = (_, refl)
wait_for_pads-Given (a ∷ arrivals) packet conn w (k, h) =
    let whole = arrived-IsWhole packet a w k in
    Given-bind _ (see_pads-Given conn (arrived packet a).0 (arrived packet a).1 whole) (λ seen.
      after_seen-Given is_in_session seen _
        (λ conn'. wait_for_pads-Given arrivals (arrived packet a).0 conn' whole h))

take_turn-Given :
    (persist : Bool) (conn : Conn) (wait : Packet × List Arrival) (turn : Turn)
    → IsWholeWait wait
    → Given (take_turn persist conn wait turn)
unfolding take_turn
take_turn-Given persist conn (packet, arrivals) (padi m t) (w, h) =
    Given-bind _ (wait_for_pado-Given persist arrivals packet _ w h) (λ r. (_, refl))
take_turn-Given persist conn (packet, arrivals) (padr m t) (w, h) =
    Given-bind _ (wait_for_pads-Given arrivals packet _ w h) (λ r. (_, refl))
take_turn-Given persist conn wait (over end) h = (_, refl)

follow-Given :
    (sent : List (Option Packet)) (next : Then)
    (go_on : Conn → Phase → Option (List (Option Packet) × End))
    → ((conn : Conn) (phase : Phase) → Given (go_on conn phase))
    → Given (follow sent next go_on)
unfolding follow
follow-Given sent (ends end) go_on k = (_, refl)
follow-Given sent (again conn phase) go_on k = Given-bind _ (k conn phase) (λ r. (_, refl))

-- A run on packets whose arrays are whole has a result.
pub run_from_total :
    (persist : Bool) (waits : List (Packet × List Arrival)) (conn : Conn) (phase : Phase)
    → All IsWholeWait waits
    → (r : List (Option Packet) × End) × (run_from persist conn phase waits ≡ some r)
unfolding run_from
run_from_total persist [] conn phase h = (_, refl)
run_from_total persist (wait ∷ waits) conn phase (w, h) =
    Given-bind _ (take_turn-Given persist conn wait (next_turn persist conn phase) w)
      (λ r. follow-Given r.0 r.1 _ (λ conn' phase'. run_from_total persist waits conn' phase' h))
