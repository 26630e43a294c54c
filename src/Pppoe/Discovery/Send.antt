-- ===== src/Pppoe/Discovery/Send.antt =====
-- rp-pppoe/src/discovery.c: `sendPADI` and `sendPADR`. The payload of a packet that is sent is the bytes
-- of its tags; what lies in the array behind them is not sent.
use zy_agf.Prelude.{ℕ, ◌+◌, Option, none, some, List, [], ◌∷◌, ◌++◌, ltb, if◌then◌else◌, length}
use zy_agf.Pppoe.Packet.{
  Packet, max_pppoe_payload, tag_hdr_size, tag_host_uniq, code_padi, code_padr,
}
use zy_agf.Pppoe.Tags.{Tag}
use zy_agf.Pppoe.Tags.Scan.{encode_tag}
use zy_agf.Pppoe.Relay.{mac_eq}
use zy_agf.Pppoe.Discovery.{Conn, tag_service_name}

-- Tags behind what the payload holds, each after its `CHECK_ROOM`.
unfoldable pub put_tags : List ℕ → List Tag → Option (List ℕ)
put_tags buf [] = some buf
put_tags buf (t ∷ tags) =
    let rest = put_tags (buf ++ encode_tag t []) tags in
    if ltb max_pppoe_payload (length buf + (length t.value + tag_hdr_size)) then none else rest

-- "NO-SERVICE-NAME-NON-RFC-COMPLIANT"
abbrev no_service_name : List ℕ
no_service_name =
    78 ∷ 79 ∷ 45 ∷ 83 ∷ 69 ∷ 82 ∷ 86 ∷ 73 ∷ 67 ∷ 69 ∷ 45 ∷ 78 ∷ 65 ∷ 77 ∷ 69 ∷ 45 ∷ 78 ∷ 79 ∷ 78
    ∷ 45 ∷ 82 ∷ 70 ∷ 67 ∷ 45 ∷ 67 ∷ 79 ∷ 77 ∷ 80 ∷ 76 ∷ 73 ∷ 65 ∷ 78 ∷ 84 ∷ []

-- The tag of the service, with an empty name where none is wanted.
abbrev pub service_tag : Option (List ℕ) → Tag
service_tag none = record { type = tag_service_name; value = [] }
service_tag (some name) = record { type = tag_service_name; value = name }

abbrev pub host_uniq_tags : Option (List ℕ) → List Tag
host_uniq_tags none = []
host_uniq_tags (some name) = record { type = tag_host_uniq; value = name } ∷ []

abbrev pub if_any : Option Tag → List Tag
if_any none = []
if_any (some t) = t ∷ []

-- The service tag of a PADI, which one name leaves out.
unfoldable pub padi_service : Option (List ℕ) → List Tag
padi_service none = service_tag none ∷ []
padi_service (some name) = if mac_eq name no_service_name then [] else service_tag (some name) ∷ []

-- A discovery packet with tags; nothing where they do not fit.
unfoldable pub discovery_packet : Conn → List ℕ → ℕ → List Tag → Option Packet
discovery_packet conn dest code tags = made (put_tags [] tags)
  where
    made : Option (List ℕ) → Option Packet
    made none = none
    made (some bytes) = some record {
      dest = dest;
      source = conn.my_eth;
      proto = 0x8863;
      vertype = 0x11;
      code = code;
      session = 0;
      length = length bytes;
      payload = bytes;
    }

unfoldable pub send_padi : Conn → Option Packet
send_padi conn =
    discovery_packet conn (255 ∷ 255 ∷ 255 ∷ 255 ∷ 255 ∷ 255 ∷ []) code_padi
      (padi_service conn.service_name ++ host_uniq_tags conn.host_uniq)

unfoldable pub send_padr : Conn → Option Packet
send_padr conn = discovery_packet conn conn.peer_eth code_padr (
    service_tag conn.service_name
    ∷ (host_uniq_tags conn.host_uniq ++ (if_any conn.cookie ++ if_any conn.relay_id)))
