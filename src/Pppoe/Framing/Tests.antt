-- ===== src/Pppoe/Framing/Tests.antt =====
-- Tests and examples of frames on the line.
use zy_agf.Prelude.{ℕ, List, [], ◌∷◌, ◌++◌, ◌≡◌, refl, arith, length}
use zy_agf.Fcs.{ppp_fcs16, fcs_step, fcstab}
use zy_agf.Pppoe.Framing.{
  Framer, building_packet, async_read_from_ppp, encode_frame, stuff, is_special,
}
use zy_agf.Pppoe.Framing.Feed.{reset, async_read_from_ppp-append}
use zy_agf.Pppoe.Framing.RoundTrip.{Bytes, async_read-encode_frame}

-- A packet with each kind of byte that is escaped.
abbrev packet : List ℕ
packet = 0xc0 ∷ 0x21 ∷ 0x7e ∷ 0x7d ∷ 0x11 ∷ 0xff ∷ []

encode_frame_length : length (encode_frame packet) ≡ 18
unfolding encode_frame stuff is_special ppp_fcs16 fcs_step fcstab
encode_frame_length = refl

packet-Bytes : Bytes packet
packet-Bytes = omega arith

async_read-encode_frame_example :
    async_read_from_ppp reset (encode_frame packet) ≡ (reset, packet ∷ [])
async_read-encode_frame_example = async_read-encode_frame packet packet-Bytes (omega arith)

-- In the middle of a frame.
abbrev halfway : Framer
halfway = record { mode = building_packet; buf = 1 ∷ 2 ∷ 3 ∷ []; xor_value = 0 }

async_read_from_ppp-append_example :
    let (s1, first) = async_read_from_ppp halfway (4 ∷ 0x7d ∷ []) in
    let (s2, second) = async_read_from_ppp s1 (0x5e ∷ 0x7e ∷ []) in
    async_read_from_ppp halfway ((4 ∷ 0x7d ∷ []) ++ (0x5e ∷ 0x7e ∷ [])) ≡ (s2, first ++ second)
async_read_from_ppp-append_example =
    async_read_from_ppp-append halfway (4 ∷ 0x7d ∷ []) (0x5e ∷ 0x7e ∷ [])
