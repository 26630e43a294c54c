-- ===== src/Pppoe/Relay/Ports.antt =====
-- rp-pppoe/src/relay.c and relay.h: the interfaces of the relay, and what its handlers share. An interface
-- is its index in `Interfaces`, which is a list; `none` is a fault (a read out of a packet, a null
-- pointer). `sizeof(int)` is 4; an index that is negative as an `int` is past every table here.
use zy_agf.Prelude.{
  ℕ, ◌+◌, ◌*◌, ◌/◌, ◌%◌, bit_and, Bool, not, ◌||◌, Option, none, some, List, [], ◌∷◌, ◌++◌, ◌==◌,
  ltb, if◌then◌else◌, get_or, get_elem?, ◌>>=◌,
}
use zy_agf.Pppoe.Packet.{
  Packet, pppoe_ver, pppoe_type, hdr_size, tag_relay_session_id, tag_generic_error, code_padt,
}
use zy_agf.Pppoe.Tags.{Tag}
use zy_agf.Pppoe.Bytes.{add_tag}
use zy_agf.Pppoe.Relay.{Relay}

-- `PPPoEInterface`
pub record Interface : Type 0 where
  pub client_ok : Bool
  pub ac_ok : Bool
  pub mac : List ℕ

-- The two sockets of an interface.
pub data Socket : Type 0 where
  discovery_sock session_sock : Socket

-- A call of `sendPacket`, on a socket of an interface.
pub record Sent : Type 0 where
  pub sock : Socket
  pub interface : ℕ
  pub packet : Packet
  pub size : ℕ

abbrev pub not_unicast : List ℕ → Bool
not_unicast mac = get_or mac 0 0 % 2 == 1

unfoldable pub broadcast : List ℕ → Bool
broadcast e =
    bit_and
      (bit_and
        (bit_and (bit_and (bit_and (get_or e 0 0) (get_or e 1 0)) (get_or e 2 0)) (get_or e 3 0))
        (get_or e 4 0))
      (get_or e 5 0)
    == 0xff

-- The bytes of an `int`, and the number of four bytes.
abbrev pub int_bytes : ℕ → List ℕ
int_bytes i = (i % 256) ∷ (i / 256 % 256) ∷ (i / 65536 % 256) ∷ (i / 16777216 % 256) ∷ []

abbrev pub int_of : List ℕ → ℕ
int_of b = get_or b 0 0 + get_or b 1 0 * 256 + get_or b 2 0 * 65536 + get_or b 3 0 * 16777216

-- MY_RELAY_TAG_LEN
abbrev pub my_relay_tag_len : ℕ
my_relay_tag_len = 10

abbrev pub relay_tag : ℕ → List ℕ → Tag
relay_tag i mac = record { type = tag_relay_session_id; value = int_bytes i ++ mac }

-- `Eth_PPPOE_Discovery`
abbrev pub eth_pppoe_discovery : ℕ
eth_pppoe_discovery = 0x8863

-- A tag that is not there adds nothing; `none` is no room.
abbrev pub add_tag_if : Packet → Option Tag → Option Packet
add_tag_if p none = some p
add_tag_if p (some t) = add_tag p t

-- `stack` is what the array of the local packet holds before it is written.
unfoldable pub relay_send_error :
    List ℕ → ℕ → ℕ → List Interface → ℕ → List ℕ → Option Tag → List ℕ → List Sent
relay_send_error stack code session ifaces i mac host_uniq err_msg = elim (get_elem? ifaces i) [
  | none ↦ []
  | some f ↦
      let p : Packet = record {
        dest = mac;
        source = f.mac;
        proto = eth_pppoe_discovery;
        vertype = 0x11;
        code = code;
        session = session;
        length = 0;
        payload = stack;
      } in
      elim (add_tag_if p host_uniq) [
        | none ↦ []
        | some p1 ↦ elim (add_tag p1 (record { type = tag_generic_error; value = err_msg })) [
          | none ↦ []
          | some p2 ↦
              record {
                sock = if code == code_padt then discovery_sock else session_sock;
                interface = i;
                packet = p2;
                size = p2.length + hdr_size;
              }
              ∷ []
        ]
      ]
]

-- A packet of session `h`, with the addresses and the session number of its peer.
unfoldable pub to_peer : List Interface → Relay → ℕ → Packet → ℕ → Option (List Sent)
to_peer ifaces r h p size = do
  let sh = r.hashes h
  f ← get_elem? ifaces sh.interface
  some (
      record {
        sock = session_sock;
        interface = sh.interface;
        packet = record p { session = sh.ses_num; source = f.mac; dest = sh.peer_mac };
        size = size;
      }
      ∷ [])

-- The version, the length and the padding of a frame of `size` bytes: the size to go on with.
unfoldable pub checked_size : Packet → ℕ → Option ℕ
checked_size p size =
    if not (pppoe_ver p.vertype == 1) || not (pppoe_type p.vertype == 1)
    then none
    else if ltb size (p.length + hdr_size)
    then none
    else some (p.length + hdr_size)
