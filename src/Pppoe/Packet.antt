-- ===== src/Pppoe/Packet.antt =====
-- rp-pppoe/src/pppoe.h: the packet, and the constants that the other files share.
-- A 16-bit field in network order is the number that it has on the wire, so `htons` and `ntohs`
-- leave no trace. `payload` is the whole array of ETH_JUMBO_LEN bytes.
use zy_agf.Prelude.{ℕ, ◌/◌, ◌%◌, List}

pub record Packet : Type 0 where
  pub dest : List ℕ
  pub source : List ℕ
  pub proto : ℕ
  pub vertype : ℕ
  pub code : ℕ
  pub session : ℕ
  pub length : ℕ
  pub payload : List ℕ

abbrev pub pppoe_ver : ℕ → ℕ
pppoe_ver vt = vt / 16

abbrev pub pppoe_type : ℕ → ℕ
pppoe_type vt = vt % 16

abbrev pub eth_data_len : ℕ
eth_data_len = 1500

abbrev pub eth_jumbo_len : ℕ
eth_jumbo_len = 1508

abbrev pub max_pppoe_payload : ℕ
max_pppoe_payload = 1502

abbrev pub tag_hdr_size : ℕ
tag_hdr_size = 4

-- The Ethernet header and PPPOE_OVERHEAD.
abbrev pub hdr_size : ℕ
hdr_size = 20

abbrev pub tag_host_uniq : ℕ
tag_host_uniq = 0x0103

abbrev pub tag_relay_session_id : ℕ
tag_relay_session_id = 0x0110

abbrev pub tag_generic_error : ℕ
tag_generic_error = 0x0203

abbrev pub code_padi : ℕ
code_padi = 0x09

abbrev pub code_pado : ℕ
code_pado = 0x07

abbrev pub code_padr : ℕ
code_padr = 0x19

abbrev pub code_pads : ℕ
code_pads = 0x65

abbrev pub code_padt : ℕ
code_padt = 0xa7

abbrev pub code_sess : ℕ
code_sess = 0
