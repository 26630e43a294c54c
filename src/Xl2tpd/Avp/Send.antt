-- ===== src/Xl2tpd/Avp/Send.antt =====
-- xl2tpd/avpsend.c: the functions that add an AVP behind what a buffer holds, and the AVPs that
-- `control_finish` of control.c puts into an SCCRQ. A buffer is the list of its bytes up to `buf->len`;
-- the functions do not look at the room that is left, and neither does the model.
use zy_agf.Prelude.{
  ℕ, ◌+◌, ◌-◌, ◌/◌, ◌%◌, min, Option, none, some, List, [], ◌∷◌, ◌++◌, length, take, ℤ, pos, negsuc,
}
use zy_agf.Pppoe.Tags.Scan.{encode16}
use zy_agf.Xl2tpd.Avp.{sccrq}

-- `MAXAVPSIZE`
abbrev pub max_avp_size : ℕ
max_avp_size = 1023

-- "xelerance.com"
abbrev pub vendor_name : List ℕ
vendor_name = 120 ∷ 101 ∷ 108 ∷ 101 ∷ 114 ∷ 97 ∷ 110 ∷ 99 ∷ 101 ∷ 46 ∷ 99 ∷ 111 ∷ 109 ∷ []

-- A 32-bit number as two words.
abbrev pub encode32 : ℕ → List ℕ
encode32 n = encode16 (n / 65536 % 65536) (encode16 (n % 65536) [])

unfoldable pub add_nonmandatory_header : List ℕ → ℕ → ℕ → List ℕ
add_nonmandatory_header buf length type = buf ++ encode16 length (encode16 0 (encode16 type []))

-- The lengths are below MBIT, so `|` is a sum.
unfoldable pub add_header : List ℕ → ℕ → ℕ → List ℕ
add_header buf length type = add_nonmandatory_header buf (length + 0x8000) type

unfoldable pub add_message_type_avp : List ℕ → ℕ → List ℕ
add_message_type_avp buf type = add_header buf 0x8 0 ++ encode16 (type % 65536) []

unfoldable pub add_protocol_avp : List ℕ → List ℕ
add_protocol_avp buf = add_header buf 0x8 0x2 ++ encode16 0x100 []

unfoldable pub add_frame_caps_avp : List ℕ → ℕ → List ℕ
add_frame_caps_avp buf caps = add_header buf 0xA 0x3 ++ encode16 0 (encode16 (caps % 65536) [])

unfoldable pub add_bearer_caps_avp : List ℕ → ℕ → List ℕ
add_bearer_caps_avp buf caps = add_header buf 0xA 0x4 ++ encode16 0 (encode16 (caps % 65536) [])

unfoldable pub add_firmware_avp : List ℕ → List ℕ
add_firmware_avp buf = add_nonmandatory_header buf 0x8 0x6 ++ encode16 0x0690 []

unfoldable pub add_hostname_avp : List ℕ → List ℕ → List ℕ
add_hostname_avp buf hostname =
    let namelen = min (length hostname) (max_avp_size - 6) in
    add_header buf (0x6 + namelen) 0x7 ++ take namelen hostname

unfoldable pub add_vendor_avp : List ℕ → List ℕ
add_vendor_avp buf = add_nonmandatory_header buf (0x6 + length vendor_name) 0x8 ++ vendor_name

unfoldable pub add_tunnelid_avp : List ℕ → ℕ → List ℕ
add_tunnelid_avp buf tid = add_header buf 0x8 0x9 ++ encode16 (tid % 65536) []

unfoldable pub add_avp_rws : List ℕ → ℕ → List ℕ
add_avp_rws buf rws = add_header buf 0x8 0xA ++ encode16 (rws % 65536) []

unfoldable pub add_challenge_avp : List ℕ → List ℕ → List ℕ
add_challenge_avp buf c = add_header buf (0x6 + length c) 0xB ++ c

unfoldable pub add_chalresp_avp : List ℕ → List ℕ → List ℕ
add_chalresp_avp buf c = add_header buf (0x6 + length c) 0xD ++ c

unfoldable pub add_randvect_avp : List ℕ → List ℕ → List ℕ
add_randvect_avp buf c = add_header buf (0x6 + length c) 0x24 ++ c

unfoldable pub add_result_code_avp : List ℕ → ℕ → ℕ → List ℕ → List ℕ
add_result_code_avp buf result error msg =
    add_header buf (0xA + length msg) 0x1
    ++ encode16 (result % 65536) (encode16 (error % 65536) msg)

unfoldable pub add_callid_avp : List ℕ → ℕ → List ℕ
add_callid_avp buf callid = add_header buf 0x8 0xE ++ encode16 (callid % 65536) []

unfoldable pub add_serno_avp : List ℕ → ℕ → List ℕ
add_serno_avp buf serno = add_header buf 0xA 0xF ++ encode32 serno

unfoldable pub add_bearer_avp : List ℕ → ℕ → List ℕ
add_bearer_avp buf bearer = add_header buf 0xA 0x12 ++ encode32 bearer

unfoldable pub add_frame_avp : List ℕ → ℕ → List ℕ
add_frame_avp buf frame = add_header buf 0xA 0x13 ++ encode32 frame

unfoldable pub add_txspeed_avp : List ℕ → ℕ → List ℕ
add_txspeed_avp buf speed = add_header buf 0xA 0x18 ++ encode32 speed

unfoldable pub add_rxspeed_avp : List ℕ → ℕ → List ℕ
add_rxspeed_avp buf speed = add_nonmandatory_header buf 0xA 0x26 ++ encode32 speed

unfoldable pub add_physchan_avp : List ℕ → ℕ → List ℕ
add_physchan_avp buf physchan = add_nonmandatory_header buf 0xA 0x19 ++ encode32 physchan

unfoldable pub add_ppd_avp : List ℕ → ℕ → List ℕ
add_ppd_avp buf ppd = add_header buf 0x8 0x14 ++ encode16 (ppd % 65536) []

unfoldable pub add_seqreqd_avp : List ℕ → List ℕ
add_seqreqd_avp buf = add_header buf 0x6 0x27

unfoldable pub add_minbps_avp : List ℕ → ℕ → List ℕ
add_minbps_avp buf speed = add_header buf 0xA 0x10 ++ encode32 speed

unfoldable pub add_maxbps_avp : List ℕ → ℕ → List ℕ
add_maxbps_avp buf speed = add_header buf 0xA 0x11 ++ encode32 speed

unfoldable pub add_number_avp : List ℕ → List ℕ → List ℕ
add_number_avp buf number = add_header buf (0x6 + length number) 0x15 ++ number

-- What an SCCRQ is made from: the random vector where hidden AVPs are allowed, the capabilities, the
-- name of the host, the tunnel's id, the window, and the challenge where the configuration asks for one.
pub record Opening : Type 0 where
  pub vector : Option (List ℕ)
  pub ourfc : ℕ
  pub ourbc : ℕ
  pub name : List ℕ
  pub ourtid : ℕ
  pub ourrws : ℤ
  pub challenge : Option (List ℕ)

-- An AVP that is there or not.
abbrev pub add_if : Option (List ℕ) → (List ℕ → List ℕ → List ℕ) → List ℕ → List ℕ
add_if none add buf = buf
add_if (some bytes) add buf = add buf bytes

abbrev pub add_window : ℤ → List ℕ → List ℕ
add_window (pos rws) buf = add_avp_rws buf rws
add_window (negsuc n) buf = buf

-- The AVPs of an SCCRQ, behind what the buffer holds.
unfoldable pub add_sccrq : Opening → List ℕ → List ℕ
add_sccrq o buf =
    let head = add_if o.vector add_randvect_avp (add_message_type_avp buf sccrq) in
    let caps = add_bearer_caps_avp (add_frame_caps_avp (add_protocol_avp head) o.ourfc) o.ourbc in
    let names = add_vendor_avp (add_hostname_avp (add_firmware_avp caps) o.name) in
    add_if o.challenge add_challenge_avp (add_window o.ourrws (add_tunnelid_avp names o.ourtid))
