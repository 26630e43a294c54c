-- ===== src/Pppoe/Discovery/Tests.antt =====
-- rp-pppoe: concrete runs of discovery.
use zy_agf.Prelude.{ℕ, zero, suc, false, Option, none, some, List, [], ◌∷◌, ◌≡◌, refl, length}
use zy_agf.Pppoe.Packet.{Packet}
use zy_agf.Pppoe.Tags.{parse_packet, parse_from, read_header, is_sane}
use zy_agf.Pppoe.Relay.{mac_eq}
use zy_agf.Pppoe.Discovery.{
  is_error, parse_for_host_uniq, same, received, failed, Conn, in_session, sent_padr, back,
  parse_pads_tags, packet_is_for_me, judge_pads, see_pads, after_seen, wait_for_pads,
}
use zy_agf.Pppoe.Discovery.Send.{send_padi, send_padr}
use zy_agf.Pppoe.Discovery.Run.{End, returned, discovery}
use zy_agf.Pppoe.Discovery.Granted.{Granted}
use zy_agf.Pppoe.Discovery.Silent.{discovery_silent}
use zy_agf.Pppoe.Discovery.Bounded.{Within, discovery-Within}

zeros : ℕ → List ℕ
zeros zero = []
zeros (suc n) = 0 ∷ zeros n

abbrev ours : List ℕ
ours = 2 ∷ 0 ∷ 0 ∷ 0 ∷ 0 ∷ 1 ∷ []

abbrev theirs : List ℕ
theirs = 2 ∷ 0 ∷ 0 ∷ 0 ∷ 0 ∷ 9 ∷ []

abbrev client : Conn
client = record {
  discovery_state = sent_padr;
  my_eth = ours;
  peer_eth = theirs;
  session = 0;
  service_name = none;
  ac_name = none;
  host_uniq = some (65 ∷ 66 ∷ []);
  print_ac_names = false;
  num_pados = 0;
  cookie = none;
  relay_id = none;
  pads_had_error = false;
  discovery_timeout = 5;
}

-- A PADS for session 17, with the client's Host-Uniq.
abbrev pads : Packet
pads = record {
  dest = ours;
  source = theirs;
  proto = 0x8863;
  vertype = 0x11;
  code = 0x65;
  session = 17;
  length = 6;
  payload = 1 ∷ 3 ∷ 0 ∷ 2 ∷ 65 ∷ 66 ∷ zeros 1502;
}

-- What lies in the variable before.
abbrev blank : Packet
blank = record {
  dest = zeros 6;
  source = zeros 6;
  proto = 0;
  vertype = 0;
  code = 0;
  session = 0;
  length = 0;
  payload = zeros 1508;
}

abbrev granted : Conn
granted = record client { session = 17; discovery_state = in_session }

-- A failed `recv` after a refused packet: the packet is judged again, with any length.
taken_again : wait_for_pads client blank (received pads 20 ∷ failed ∷ []) ≡ some (back granted)
unfolding wait_for_pads see_pads after_seen judge_pads packet_is_for_me mac_eq parse_packet
    parse_from read_header is_sane parse_pads_tags parse_for_host_uniq same zeros is_error
taken_again = refl

blank_whole : length blank.payload ≡ 1508
unfolding zeros
blank_whole = refl

pads_whole : length pads.payload ≡ 1508
unfolding zeros
pads_whole = refl

discovery_silent_example :
    discovery false client
      ((blank, []) ∷ (blank, []) ∷ (blank, []) ∷ (blank, []) ∷ (blank, []) ∷ (blank, []) ∷ [])
    ≡ some (
      send_padi client
          ∷ send_padi client
          ∷ send_padi client
          ∷ send_padr client
          ∷ send_padr client
          ∷ send_padr client
          ∷ [],
      returned (record client { discovery_state = sent_padr }),
    )
discovery_silent_example = discovery_silent client blank refl

discovery-Within_example :
    (r : List (Option Packet) × End) × (discovery false client
        ((blank, received pads 60 ∷ []) ∷ (pads, failed ∷ []) ∷ [])
      ≡ some r)
    × Within 6 2 r
discovery-Within_example =
    discovery-Within client ((blank, received pads 60 ∷ []) ∷ (pads, failed ∷ []) ∷ [])
      ((blank_whole, (pads_whole, tt)), ((pads_whole, (tt, tt)), tt))
