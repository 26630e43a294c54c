-- ===== src/Pppoe/Framing.antt =====
-- rp-pppoe: PPP frames on an asynchronous line. `asyncReadFromPPP` of ppp.c takes them apart, and the
-- end of `asyncReadFromEth` of pppoe.c builds them. What `read` returned is a list of bytes; the bytes
-- of `packet->payload` up to `PPPPacketSize` are the list `buf`. `rp_fatal` ends in mode `dead`.
pub mod Feed
pub mod RoundTrip
mod Tests
use zy_agf.Prelude.{
  ℕ, zero, suc, ◌+◌, ◌-◌, ◌%◌, ◌/◌, bit_xor, Bool, true, false, ◌||◌, List, [], ◌∷◌, ◌++◌, ◌==◌,
  ltb, leb, if◌then◌else◌, length, take,
}
use zy_agf.Fcs.{ppp_fcs16, fcs_bytes}

-- STATE_WAITFOR_FRAME_ADDR, STATE_DROP_PROTO and STATE_BUILDING_PACKET
pub data Mode : Type 0 where
  waitfor_frame_addr drop_proto building_packet dead : Mode

-- `PPPState`, `PPPPacketSize` with the bytes, and `PPPXorValue`
pub record Framer : Type 0 where
  pub mode : Mode
  pub buf : List ℕ
  pub xor_value : ℕ

abbrev pub frame_esc : ℕ
frame_esc = 0x7d

abbrev pub frame_flag : ℕ
frame_flag = 0x7e

abbrev pub frame_addr : ℕ
frame_addr = 0xff

abbrev pub frame_ctrl : ℕ
frame_ctrl = 0x03

abbrev pub frame_enc : ℕ
frame_enc = 0x20

-- ETH_JUMBO_LEN - 4
abbrev pub max_frame : ℕ
max_frame = 1504

unfoldable pub init_ppp : Framer
init_ppp = record { mode = waitfor_frame_addr; buf = []; xor_value = 0 }

-- A loop's state when it ends: the machine, the bytes not read, and what `sendSessionPacket` sent.
pub record Progress : Type 0 where
  pub framer : Framer
  pub unread : List ℕ
  pub sent : List (List ℕ)

-- The first inner loop: up to FRAME_ADDR.
unfoldable pub wait_addr : Framer → List ℕ → Progress
wait_addr s [] = record { framer = s; unread = []; sent = [] }
wait_addr s (c ∷ bytes) =
    let later = wait_addr s bytes in
    if c == frame_addr
    then record { framer = record s { mode = drop_proto }; unread = bytes; sent = [] }
    else later

-- The second: up to the escaped FRAME_CTRL.
unfoldable pub drop_ctrl : Framer → List ℕ → Progress
drop_ctrl s [] = record { framer = s; unread = []; sent = [] }
drop_ctrl s (c ∷ bytes) =
    let later = drop_ctrl s bytes in
    if c == bit_xor frame_ctrl frame_enc
    then record { framer = record s { mode = building_packet }; unread = bytes; sent = [] }
    else later

-- The end of a frame: the packet without its check sequence goes out.
unfoldable pub end_frame : Framer → List ℕ → Progress
end_frame s bytes =
    if ltb (length s.buf) 2
    then record { framer = record s { mode = dead }; unread = bytes; sent = [] }
    else record {
      framer = record { mode = waitfor_frame_addr; buf = []; xor_value = 0 };
      unread = bytes;
      sent = take (length s.buf - 2) s.buf ∷ [];
    }

-- The third: the bytes of the frame.
unfoldable pub build : Framer → List ℕ → Progress
unfolding end_frame
build s [] = record { framer = s; unread = []; sent = [] }
build s (c ∷ bytes) =
    let escaped = build (record s { xor_value = frame_enc }) bytes in
    let stored =
      build (record s { buf = s.buf ++ (bit_xor c s.xor_value ∷ []); xor_value = 0 }) bytes in
    if c == frame_esc
    then escaped
    else if c == frame_flag
    then end_frame s bytes
    else if leb max_frame (length s.buf)
    then record {
      framer = record { mode = waitfor_frame_addr; buf = []; xor_value = 0 };
      unread = bytes;
      sent = [];
    }
    else stored

-- A loop is entered in its own mode alone.
unfoldable pub enter : Mode → Framer → List ℕ → Progress
unfolding wait_addr drop_ctrl build
enter waitfor_frame_addr s bytes = wait_addr s bytes
enter drop_proto s bytes = drop_ctrl s bytes
enter building_packet s bytes = build s bytes
enter dead s bytes = record { framer = s; unread = []; sent = [] }

-- `asyncReadFromPPP` on the bytes that were read. A round runs the loop of the mode it is in; the source
-- falls from each loop into the next within one round of the outer loop, and returns where the bytes end.
unfoldable pub async_read : ℕ → Framer → List ℕ → Framer × List (List ℕ)
unfolding enter
async_read zero s bytes = (s, [])
async_read (suc fuel) s [] = (s, [])
async_read (suc fuel) s (c ∷ bytes) =
    let p = enter s.mode s (c ∷ bytes) in
    let (s', sent) = async_read fuel p.framer p.unread in (s', p.sent ++ sent)

unfoldable pub async_read_from_ppp : Framer → List ℕ → Framer × List (List ℕ)
async_read_from_ppp s bytes = async_read (suc (length bytes)) s bytes

-- The bytes that `asyncReadFromEth` escapes.
unfoldable pub is_special : ℕ → Bool
is_special c = c == frame_flag || c == frame_addr || c == frame_esc || ltb c 0x20

unfoldable pub stuff : List ℕ → List ℕ
unfolding is_special
stuff [] = []
stuff (c ∷ bytes) =
    if is_special c then frame_esc ∷ bit_xor c frame_enc ∷ stuff bytes else c ∷ stuff bytes

-- The buffer for one packet.
unfoldable pub encode_frame : List ℕ → List ℕ
unfolding stuff
encode_frame payload =
    frame_flag
    ∷ frame_addr
    ∷ frame_esc
    ∷ bit_xor frame_ctrl frame_enc
    ∷ (stuff (
          payload
          ++ fcs_bytes (ppp_fcs16 (ppp_fcs16 0xffff (frame_addr ∷ frame_ctrl ∷ [])) payload))
        ++ (frame_flag ∷ []))
