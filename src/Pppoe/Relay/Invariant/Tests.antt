-- ===== src/Pppoe/Relay/Invariant/Tests.antt =====
-- Tests and examples of the relay's invariant: five sessions at most, a client behind interface 0.
use zy_agf.Prelude.{true, [], ◌∷◌, ◌≡◌, refl, arith}
use zy_agf.Pppoe.Packet.{Packet, code_padt}
use zy_agf.Pppoe.Relay.{Relay, init_relay, add_hash, link_session, find_session, indices}
use zy_agf.Pppoe.Relay.Table.{elem}
use zy_agf.Pppoe.Relay.Tests.{zeros, client_mac, ac_mac, inside, interfaces}
use zy_agf.Pppoe.Relay.Handlers.{relay_got_discovery_packet, clean_sessions}
use zy_agf.Pppoe.Relay.Invariant.{IsValid}
use zy_agf.Pppoe.Relay.Invariant.Link.{link_session-IsValid}
use zy_agf.Pppoe.Relay.Invariant.Create.{Creates, create_session-IsValid}
use zy_agf.Pppoe.Relay.Invariant.Lookup.{Looked, find_session-Looked}
use zy_agf.Pppoe.Relay.Invariant.Reach.{init_relay-IsValid}
use zy_agf.Pppoe.Relay.Invariant.Steps.{Keeps}
use zy_agf.Pppoe.Relay.Invariant.Always.{relay_got_discovery_packet-IsValid}
use zy_agf.Pppoe.Relay.Invariant.Run.{start, next, clean, tick, Reach-IsValid}

empty_table : IsValid 2 (init_relay 5)
empty_table = init_relay-IsValid 2 5

create_session-IsValid_example : Creates 2 1 0 ac_mac client_mac 77 (init_relay 5)
create_session-IsValid_example =
    create_session-IsValid 2 1 0 ac_mac client_mac 77 (init_relay 5) empty_table (omega arith)
      (omega arith)

-- The table after it.
abbrev one_session : Relay
one_session =
    link_session 1 0 ac_mac client_mac 77 (init_relay 5) 0 (1 ∷ 2 ∷ 3 ∷ 4 ∷ []) 0 1
      (2 ∷ 3 ∷ 4 ∷ 5 ∷ 6 ∷ 7 ∷ 8 ∷ 9 ∷ [])

one_session-IsValid : IsValid 2 one_session
unfolding init_relay indices
one_session-IsValid =
    link_session-IsValid 2 1 0 ac_mac client_mac 77 (init_relay 5) 0 (1 ∷ 2 ∷ 3 ∷ 4 ∷ []) 0 1
      (2 ∷ 3 ∷ 4 ∷ 5 ∷ 6 ∷ 7 ∷ 8 ∷ 9 ∷ []) empty_table refl refl (omega arith) (omega arith)

is_active : elem 0 one_session.active_sessions ≡ true
unfolding link_session add_hash
is_active = refl

find_session-Looked_example :
    Looked one_session client_mac 1 (find_session one_session client_mac 1)
find_session-Looked_example = find_session-Looked 2 one_session client_mac 1 one_session-IsValid

-- A PADT of the client for its session.
abbrev padt : Packet
padt = record {
  dest = inside.mac;
  source = client_mac;
  proto = 34915;
  vertype = 17;
  code = code_padt;
  session = 1;
  length = 0;
  payload = zeros 1508;
}

relay_got_discovery_packet-IsValid_example :
    Keeps 2 (relay_got_discovery_packet [] [] interfaces 0 inside padt 60 one_session)
relay_got_discovery_packet-IsValid_example =
    relay_got_discovery_packet-IsValid [] [] interfaces 0 inside padt 60 one_session refl
      one_session-IsValid (omega arith)

Reach-IsValid_example :
    IsValid 2 (clean_sessions [] [] interfaces 600 (record (init_relay 5) { epoch = 1 })).1
unfolding init_relay
Reach-IsValid_example =
    Reach-IsValid interfaces 5
      (clean_sessions [] [] interfaces 600 (record (init_relay 5) { epoch = 1 })).1
      (next (next start tick) (clean [] [] 600))
