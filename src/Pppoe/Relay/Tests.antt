-- ===== src/Pppoe/Relay/Tests.antt =====
-- Tests and examples of the relay: a client behind interface 0, an access concentrator behind interface 1.
use zy_agf.Prelude.{
  ◌≢◌, ℕ, zero, suc, ◌+◌, true, false, some, List, [], ◌∷◌, ◌≡◌, refl, arith, if◌then◌else◌, ◌==◌,
  ◌%◌,
}
use zy_agf.Pppoe.Packet.{Packet, hdr_size}
use zy_agf.Pppoe.Relay.{
  SessionHash, Relay, mac_eq, hash, find_in, find_session, add_hash, link_session, take_hashes,
  create_session, indices, init_relay, update,
}
use zy_agf.Pppoe.Relay.Table.{Unchained}
use zy_agf.Pppoe.Relay.Ports.{Interface, Sent, checked_size, session_sock}
use zy_agf.Pppoe.Relay.Handlers.{relay_got_session_packet}
use zy_agf.Pppoe.Relay.Handlers.Forward.{IsSessionFrame, touched, relay_got_session_packet-reply}

abbrev pub zeros : ℕ → List ℕ
zeros zero = []
zeros (suc n) = 0 ∷ zeros n

abbrev pub client_mac : List ℕ
client_mac = 2 ∷ 0 ∷ 0 ∷ 0 ∷ 0 ∷ 1 ∷ []

abbrev pub ac_mac : List ℕ
ac_mac = 2 ∷ 0 ∷ 0 ∷ 0 ∷ 0 ∷ 2 ∷ []

abbrev pub inside : Interface
inside = record { client_ok = true; ac_ok = false; mac = 4 ∷ 0 ∷ 0 ∷ 0 ∷ 0 ∷ 1 ∷ [] }

abbrev pub outside : Interface
outside = record { client_ok = false; ac_ok = true; mac = 4 ∷ 0 ∷ 0 ∷ 0 ∷ 0 ∷ 2 ∷ [] }

abbrev pub interfaces : List Interface
interfaces = inside ∷ outside ∷ []

-- One session, whose number at the access concentrator is 77.
abbrev one_session : Relay
one_session =
    link_session 1 0 ac_mac client_mac 77 (init_relay 5) 0 (1 ∷ 2 ∷ 3 ∷ 4 ∷ []) 0 1
      (2 ∷ 3 ∷ 4 ∷ 5 ∷ 6 ∷ 7 ∷ 8 ∷ 9 ∷ [])

-- `createSession` takes the first of each list.
create_session_first :
    create_session 1 0 ac_mac client_mac 77 (init_relay 5) ≡ some (some 0, one_session)
unfolding create_session take_hashes init_relay indices
create_session_first = refl

fresh-Unchained : (h : ℕ) → Unchained (init_relay 5) h
unfolding init_relay
fresh-Unchained h = record { unchained = λ b. refl }

-- A second session, of another client, freed while the first one is in use.
abbrev two_sessions : Relay
two_sessions =
    link_session 1 0 ac_mac (2 ∷ 0 ∷ 0 ∷ 0 ∷ 0 ∷ 3 ∷ []) 78 one_session 1 (2 ∷ 3 ∷ 4 ∷ []) 2 3
      (4 ∷ 5 ∷ 6 ∷ 7 ∷ 8 ∷ 9 ∷ [])

client_found : find_session two_sessions client_mac 1 ≡ some 1
unfolding find_session find_in link_session add_hash init_relay hash mac_eq
client_found = refl

ac_hash_second : (two_sessions.sessions 1).ac_hash ≡ 2
unfolding link_session add_hash init_relay
ac_hash_second = refl

client_hash_second : (two_sessions.sessions 1).client_hash ≡ 3
unfolding link_session add_hash init_relay
client_hash_second = refl

-- The client's packet and the answer of the access concentrator.
abbrev request : Packet
request = record {
  dest = inside.mac;
  source = client_mac;
  proto = 0x8864;
  vertype = 0x11;
  code = 0;
  session = 1;
  length = 3;
  payload = 1 ∷ 2 ∷ 3 ∷ zeros 1505;
}

abbrev answer : Packet
answer = record request { dest = outside.mac; source = ac_mac; session = 77 }

request-IsSessionFrame : IsSessionFrame inside request 60
request-IsSessionFrame = record {
  version = refl;
  kind = refl;
  sess = refl;
  ours = refl;
  fits = omega arith;
}

answer-IsSessionFrame : IsSessionFrame outside answer 60
answer-IsSessionFrame = record {
  version = refl;
  kind = refl;
  sess = refl;
  ours = refl;
  fits = omega arith;
}

abbrev client_side : SessionHash
client_side = record { peer = 0; interface = 0; peer_mac = client_mac; ses_num = 1; ses = 0 }

abbrev ac_side : SessionHash
ac_side = record { peer = 1; interface = 1; peer_mac = ac_mac; ses_num = 77; ses = 0 }

-- A table that holds the session of `one_session`, written out.
abbrev table : Relay
table = record (init_relay 5) {
  hashes = λ h. if h == 1 then client_side else ac_side;
  buckets =
      update (update (λ b. []) (hash ac_mac 77 % 18917) (0 ∷ [])) (hash client_mac 1 % 18917)
        (1 ∷ []);
}

request_found : find_session table client_mac 1 ≡ some 1
unfolding find_session find_in hash mac_eq
request_found = refl

answer_found : find_session table ac_mac 77 ≡ some 0
unfolding find_session find_in hash mac_eq
answer_found = refl

-- What the relay sends for the request.
abbrev relayed : Sent
relayed = record {
  sock = session_sock;
  interface = 1;
  packet = record request { session = 77; source = outside.mac; dest = ac_mac };
  size = request.length + hdr_size;
}

goes_out :
    relay_got_session_packet interfaces inside request 60 table
    ≡ some (relayed ∷ [], touched table 1)
unfolding relay_got_session_packet checked_size find_session find_in hash mac_eq
goes_out = refl

relay_got_session_packet-reply_example :
    (relayed.interface ≡ 1)
    × (relay_got_session_packet interfaces outside answer 60 (touched table 1)
        ≡ some (
          record {
            sock = session_sock;
            interface = 0;
            packet = record answer {
              session = request.session;
              source = inside.mac;
              dest = request.source;
            };
            size = answer.length + hdr_size;
          }
              ∷ [],
          touched (touched table 1) 0,
        ))
relay_got_session_packet-reply_example =
    relay_got_session_packet-reply interfaces inside outside inside request answer 60 60 1 0 table
      (touched table 1) relayed request-IsSessionFrame request_found refl refl answer_found refl
      refl goes_out answer-IsSessionFrame refl refl

first_number : ((init_relay 5).sessions 0).ses_num ≡ 1
unfolding init_relay
first_number = refl

macs_differ : ac_mac ≢ client_mac
macs_differ e = cc
