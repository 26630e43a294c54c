-- ===== src/Pppoe/Discovery.antt =====
-- rp-pppoe/src/discovery.c: the client's side of discovery, built without PLUGIN. What arrives while it
-- waits is a list of packets with the number of bytes received, at whose end the time is up: `time_left`
-- and `select` are not modelled further. A tag of the connection is there where its type is not 0.
-- `none` is a read outside the array of a packet.
pub mod Send
pub mod Run
pub mod Mine
pub mod Granted
pub mod Silent
pub mod Reads
pub mod Bounded
mod Tests
use zy_agf.Prelude.{
  ◌>>=◌, ℕ, ◌+◌, ◌-◌, ◌^◌, Bool, true, false, not, ◌&&◌, ◌||◌, Option, none, some, List, [], ◌∷◌,
  ◌==◌, ltb, if◌then◌else◌,
}
use zy_agf.Pppoe.Packet.{
  Packet, hdr_size, tag_host_uniq, tag_relay_session_id, tag_generic_error, code_pado, code_pads,
}
use zy_agf.Pppoe.Tags.{Tag, ParseFunc, parse_packet}
use zy_agf.Pppoe.Relay.{mac_eq}
use zy_agf.Pppoe.Relay.Ports.{broadcast}

abbrev pub tag_service_name : ℕ
tag_service_name = 0x0101

abbrev pub tag_ac_name : ℕ
tag_ac_name = 0x0102

abbrev pub tag_ac_cookie : ℕ
tag_ac_cookie = 0x0104

abbrev pub tag_service_name_error : ℕ
tag_service_name_error = 0x0201

abbrev pub tag_ac_system_error : ℕ
tag_ac_system_error = 0x0202

-- The states of a client, in the order of their numbers.
pub data DiscoveryState : Type 0 where
  sent_padi received_pado sent_padr in_session terminated : DiscoveryState

pub record Conn : Type 0 where
  pub discovery_state : DiscoveryState
  pub my_eth : List ℕ
  pub peer_eth : List ℕ
  pub session : ℕ
  pub service_name : Option (List ℕ)
  pub ac_name : Option (List ℕ)
  pub host_uniq : Option (List ℕ)
  pub print_ac_names : Bool
  pub num_pados : ℕ
  pub cookie : Option Tag
  pub relay_id : Option Tag
  pub pads_had_error : Bool
  pub discovery_timeout : ℕ

-- `struct PacketCriteria`, and whether the process has left by `exit`.
pub record Criteria : Type 0 where
  pub conn : Conn
  pub ac_name_ok : Bool
  pub service_name_ok : Bool
  pub seen_ac_name : Bool
  pub seen_service_name : Bool
  pub got_error : Bool
  pub exited : Bool

-- Whether a wanted name is there and the same.
unfoldable pub same : Option (List ℕ) → List ℕ → Bool
same none bytes = false
same (some name) bytes = mac_eq bytes name

unfoldable pub is_error : ℕ → Bool
is_error type =
    type == tag_service_name_error || type == tag_ac_system_error || type == tag_generic_error

unfoldable pub parse_for_host_uniq : Option (List ℕ) → ParseFunc Bool
parse_for_host_uniq host_uniq type len bytes for_me =
    if type == tag_host_uniq && same host_uniq bytes then true else for_me

unfoldable pub packet_is_for_me : Conn → Packet → Option Bool
packet_is_for_me conn p =
    if not (mac_eq p.dest conn.my_eth) then some false else by_tag conn.host_uniq
  where
    by_tag : Option (List ℕ) → Option Bool
    by_tag none = some true
    by_tag (some name) = do
      (ok, for_me) ← parse_packet (parse_for_host_uniq (some name)) p false
      some for_me

unfoldable pub parse_pado_tags : Bool → ParseFunc Criteria
parse_pado_tags persist type len bytes pc =
    if pc.exited
    then pc
    else if type == tag_ac_name
    then record pc { seen_ac_name = true; ac_name_ok = pc.ac_name_ok || same pc.conn.ac_name bytes }
    else if type == tag_service_name
    then record pc {
      seen_service_name = true;
      service_name_ok = pc.service_name_ok || same pc.conn.service_name bytes;
    }
    else if type == tag_ac_cookie
    then record pc {
      conn = record pc.conn { cookie = some (record { type = type; value = bytes }) };
    }
    else if type == tag_relay_session_id
    then record pc {
      conn = record pc.conn { relay_id = some (record { type = type; value = bytes }) };
    }
    else if is_error type && not pc.conn.print_ac_names
    then record pc { got_error = true; exited = not persist }
    else pc

unfoldable pub parse_pads_tags : ParseFunc Conn
parse_pads_tags type len bytes conn =
    if is_error type
    then record conn { pads_had_error = true }
    else if type == tag_relay_session_id
    then record conn { relay_id = some (record { type = type; value = bytes }) }
    else conn

-- How a wait ends: the process has left, or the function returns.
pub data Waited : Type 0 where
  left : Waited
  back : Conn → Waited

-- One packet while a PADO is awaited: go on waiting with a connection, or end.
pub data Seen : Type 0 where
  more : Conn → Seen
  ended : Waited → Seen

abbrev is_absent : Option (List ℕ) → Bool
is_absent none = true
is_absent (some name) = false

-- The tests of a PADO whose tags have been read.
unfoldable pub judge_pado : Packet → Criteria → Seen
judge_pado p pc =
    let counted = record pc.conn { num_pados = pc.conn.num_pados + 1 } in
    if pc.exited
    then ended left
    else if pc.got_error || not pc.seen_ac_name || not pc.seen_service_name
    then more pc.conn
    else if not (pc.ac_name_ok && pc.service_name_ok)
    then more counted
    else if counted.print_ac_names
    then more (record counted { peer_eth = p.source })
    else ended (back (record counted { peer_eth = p.source; discovery_state = received_pado }))

unfoldable pub see_pado : Bool → Conn → Packet → ℕ → Option Seen
see_pado persist conn p len = if ltb len (p.length + hdr_size) then some (more conn) else do
  for_me ← packet_is_for_me conn p
  (if not (for_me && p.code == code_pado) || broadcast p.source then some (more conn) else do
    (ok, pc) ← parse_packet (parse_pado_tags persist) p record {
      conn = conn;
      ac_name_ok = is_absent conn.ac_name;
      service_name_ok = is_absent conn.service_name;
      seen_ac_name = false;
      seen_service_name = false;
      got_error = false;
      exited = false;
    }
    some (judge_pado p pc))

-- What `receivePacket` does: it fills the variable `packet` and gives the number of bytes, or `recv`
-- fails, which leaves the variable as it was.
pub data Arrival : Type 0 where
  received : Packet → ℕ → Arrival
  failed : Arrival

-- The variable after `receivePacket`, and `len` as the length check reads it: the callers ignore the
-- result, and the -1 of a failure is compared as an unsigned 64-bit number.
abbrev pub arrived : Packet → Arrival → Packet × ℕ
arrived packet (received p len) = (p, len)
arrived packet failed = (packet, 2 ^ 64 - 1)

abbrev pub is_received_pado : DiscoveryState → Bool
is_received_pado received_pado = true
is_received_pado _ = false

abbrev pub is_in_session : DiscoveryState → Bool
is_in_session in_session = true
is_in_session _ = false

-- The end of a round of a wait; `met` is whether the state is the one that the loop waits for.
unfoldable pub after_seen : (DiscoveryState → Bool) → Seen → (Conn → Option Waited) → Option Waited
after_seen met (more conn) go_on = if met conn.discovery_state then some (back conn) else go_on conn
after_seen met (ended w) go_on = some w

-- `packet` is what lies in the variable before; the list ends where the time is up.
unfoldable pub wait_for_pado : Bool → Conn → Packet → List Arrival → Option Waited
wait_for_pado persist conn packet [] = some (back conn)
wait_for_pado persist conn packet (a ∷ arrivals) = do
  seen ← see_pado persist conn (arrived packet a).0 (arrived packet a).1
  after_seen is_received_pado seen
      (λ conn'. wait_for_pado persist conn' (arrived packet a).0 arrivals)

-- The tests of a PADS whose tags have been read; the session is taken behind the loop.
unfoldable pub judge_pads : Packet → Conn → Seen
judge_pads p conn =
    if conn.pads_had_error
    then more conn
    else ended (back (record conn { discovery_state = in_session; session = p.session }))

unfoldable pub see_pads : Conn → Packet → ℕ → Option Seen
see_pads conn p len =
    if ltb len (p.length + hdr_size) || not (mac_eq p.source conn.peer_eth)
    then some (more conn)
    else do
      for_me ← packet_is_for_me conn p
      (if not (for_me && p.code == code_pads) then some (more conn) else do
        (ok, conn') ← parse_packet parse_pads_tags p (record conn { pads_had_error = false })
        some (judge_pads p conn'))

unfoldable pub wait_for_pads : Conn → Packet → List Arrival → Option Waited
wait_for_pads conn packet [] = some (back conn)
wait_for_pads conn packet (a ∷ arrivals) = do
  seen ← see_pads conn (arrived packet a).0 (arrived packet a).1
  after_seen is_in_session seen (λ conn'. wait_for_pads conn' (arrived packet a).0 arrivals)
