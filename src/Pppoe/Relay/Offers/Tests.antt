-- ===== src/Pppoe/Relay/Offers/Tests.antt =====
-- Tests and examples of PADI, PADO and PADR: a client behind interface 0, an access concentrator behind
-- interface 1.
use zy_agf.Prelude.{All, true, false, some, List, [], ◌∷◌, ◌≡◌, refl, arith}
use zy_agf.Pppoe.Packet.{Packet}
use zy_agf.Pppoe.Tags.{read_header, find_tag, find_from, is_sane}
use zy_agf.Pppoe.Tags.Scan.{Scan, encode_tags}
use zy_agf.Pppoe.Bytes.{add_tag, insert_bytes}
use zy_agf.Pppoe.Relay.{mac_eq}
use zy_agf.Pppoe.Relay.Ports.{Sent, discovery_sock, broadcast, relay_tag}
use zy_agf.Pppoe.Relay.Offers.{
  broadcast_on, relay_handle_padi, check_target, relay_target, redirect, relay_handle_pado,
  relay_handle_padr,
}
use zy_agf.Pppoe.Relay.Offers.Padi.{Relayed, relay_handle_padi-Relayed}
use zy_agf.Pppoe.Relay.Tests.{zeros, client_mac, ac_mac, inside, outside, interfaces}
use zy_agf.Pppoe.Tags.Parse.{nil, cons, encode_tags-Scan}
use zy_agf.Pppoe.Relay.Offers.Answers.{Tagged, own_target, relay_handle_pado_to_client}

-- A PADI of the client, without tags.
abbrev padi : Packet
padi = record {
  dest = 255 ∷ 255 ∷ 255 ∷ 255 ∷ 255 ∷ 255 ∷ [];
  source = client_mac;
  proto = 0x8863;
  vertype = 0x11;
  code = 9;
  session = 0;
  length = 0;
  payload = zeros 1508;
}

abbrev tagged : Packet
tagged = record padi {
  payload = encode_tags (relay_tag 0 client_mac ∷ []) (zeros 1494);
  length = 14;
}

abbrev relayed : List Sent
relayed =
    record {
      sock = discovery_sock;
      interface = 1;
      packet = record tagged { source = outside.mac };
      size = 74;
    }
    ∷ []

padi-relayed : relay_handle_padi interfaces 0 inside padi 60 ≡ some relayed
unfolding relay_handle_padi broadcast broadcast_on find_tag find_from is_sane read_header add_tag
    insert_bytes
padi-relayed = refl

relay_handle_padi-Relayed_example : All (Relayed interfaces 0 client_mac [] true) relayed
relay_handle_padi-Relayed_example =
    relay_handle_padi-Relayed interfaces 0 inside padi 60 refl (Scan.short (omega arith))
      padi-relayed

-- The answer to it, with the tag as it came.
abbrev pado : Packet
pado = record tagged { dest = outside.mac; source = ac_mac; code = 7 }

abbrev pado_out : List Sent
pado_out =
    record {
      sock = discovery_sock;
      interface = 0;
      packet = record pado {
        dest = client_mac;
        source = inside.mac;
        payload = encode_tags (relay_tag 1 ac_mac ∷ []) (zeros 1494);
      };
      size = 60;
    }
    ∷ []

pado_sent : relay_handle_pado interfaces 1 outside pado 60 ≡ some pado_out
unfolding relay_handle_pado broadcast mac_eq relay_target check_target redirect find_tag find_from
    is_sane read_header
pado_sent = refl

-- The client's next packet, with the tag of that answer.
abbrev padr : Packet
padr = record padi {
  dest = inside.mac;
  code = 0x19;
  length = 14;
  payload = encode_tags (relay_tag 1 ac_mac ∷ []) (zeros 1494);
}

abbrev padr_out : List Sent
padr_out =
    record {
      sock = discovery_sock;
      interface = 1;
      packet = record padr {
        dest = ac_mac;
        source = outside.mac;
        payload = encode_tags (relay_tag 0 client_mac ∷ []) (zeros 1494);
      };
      size = 60;
    }
    ∷ []

padr_sent : relay_handle_padr interfaces 0 inside padr 60 ≡ some padr_out
unfolding relay_handle_padr mac_eq relay_target check_target redirect find_tag find_from is_sane
    read_header
padr_sent = refl

pado-Tagged : Tagged (λ g. g.client_ok) interfaces 1 0 0 client_mac inside pado
unfolding is_sane
pado-Tagged = record {
  tags = relay_tag 0 client_mac ∷ [];
  ok = true;
  sane = refl;
  fits = omega arith;
  reads = encode_tags-Scan (cons (omega arith) nil);
  first = refl;
  index = omega arith;
  address = refl;
  there = refl;
  serving = refl;
  other = omega arith;
}

from_ac : broadcast ac_mac ≡ false
unfolding broadcast
from_ac = refl

relay_handle_pado_to_client_example :
    let q = redirect 1 pado (own_target 0 0 client_mac inside) in
    (relay_handle_pado interfaces 1 outside pado 60
      ≡ some (record { sock = discovery_sock; interface = 0; packet = q; size = 60 } ∷ []))
    × (q.dest ≡ client_mac)
    × (q.source ≡ inside.mac)
relay_handle_pado_to_client_example =
    relay_handle_pado_to_client interfaces 1 0 0 60 outside inside client_mac pado refl from_ac refl
      pado-Tagged

padr-Tagged : Tagged (λ g. g.ac_ok) interfaces 0 1 0 ac_mac outside padr
unfolding is_sane
padr-Tagged = record {
  tags = relay_tag 1 ac_mac ∷ [];
  ok = true;
  sane = refl;
  fits = omega arith;
  reads = encode_tags-Scan (cons (omega arith) nil);
  first = refl;
  index = omega arith;
  address = refl;
  there = refl;
  serving = refl;
  other = omega arith;
}
