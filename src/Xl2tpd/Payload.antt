-- ===== src/Xl2tpd/Payload.antt =====
-- xl2tpd: payload packets. `add_payload_hdr` of call.c, `check_payload` and `expand_payload` of
-- control.c, and `add_fcs`. A packet is the list of its 16-bit words in host order, as `fix_hdr` leaves
-- them; `expand_payload` reads each word before its place is written, so words are read from the packet.
pub mod Expand
use zy_agf.Prelude.{
  ℕ, ◌+◌, ◌-◌, ◌*◌, ◌/◌, ◌%◌, Bool, true, false, not, ◌&&◌, ◌||◌, Option, none, some, List, [], ◌∷◌,
  ◌++◌, ◌==◌, ltb, leb, if◌then◌else◌, get_or, ℤ, pos, negsuc, to_u16,
}
use zy_agf.Xl2tpd.Control.{ctbit, clbit, cfbit, cver, already_received}

-- `struct payload_hdr`
pub record PayloadHdr : Type 0 where
  pub ver : ℕ
  pub length : ℕ
  pub tid : ℕ
  pub cid : ℕ
  pub ns : ℕ
  pub nr : ℕ
  pub o_size : ℕ

-- The fields of `struct call` that payload packets use. `lbit` is 0 or LBIT, `fbit` and `ourfbit` are
-- 0 or FBIT.
pub record DataCall : Type 0 where
  pub cid : ℕ
  pub lbit : Bool
  pub fbit : Bool
  pub ourfbit : Bool
  pub data_seq_num : ℕ
  pub data_rec_seq_num : ℕ
  pub pnu : Bool
  pub plr : ℕ

abbrev pub psbit : ℕ → Bool
psbit ver = ver / 0x0200 % 2 == 1

abbrev pub min_payload_hdr_len : ℕ
min_payload_hdr_len = 6

abbrev pub payload_fudge : ℕ
payload_fudge = 2

abbrev pub word : List ℕ → ℕ → ℕ
word words i = get_or words i 0

-- The header in front of `len` bytes for tunnel `tid`, the length of the whole, and the call after it.
unfoldable pub add_payload_hdr : ℤ → DataCall → ℕ → List ℕ × ℕ × DataCall
add_payload_hdr tid c len =
    let f = c.fbit || c.ourfbit in
    let total = len + 6 + (if f then 4 else 0) + (if c.lbit then 2 else 0) in
    let ver = 2 + (if c.lbit then 0x4000 else 0) + (if f then 0x0800 else 0) in
    let numbers : List ℕ = if f then c.data_seq_num ∷ c.data_rec_seq_num ∷ [] else [] in
    let ids : List ℕ = to_u16 tid ∷ (c.cid % 65536) ∷ numbers in
    (
      ver ∷ (if c.lbit then (total % 65536) ∷ ids else ids),
      total,
      record c { data_seq_num = (c.data_seq_num + 1) % 65536 },
    )

-- With SANITY; `has_call` is false for a packet on the tunnel itself, and true is the result 0.
unfoldable pub check_payload : Bool → Bool → ℕ → List ℕ → Bool
check_payload has_call sanity len words =
    let ver = word words 0 in
    let ehlen =
      min_payload_hdr_len
      + (if clbit ver then 2 else 0)
      + (if cfbit ver then 4 else 0)
      + (if psbit ver then 2 else 0)
      + (if clbit ver then word words 1 else 0) in
    if not has_call
    then false
    else if ltb len min_payload_hdr_len
    then false
    else if not sanity
    then true
    else if ctbit ver
    then false
    else if not (cver ver == 2)
    then false
    else if ltb len ehlen && not (clbit ver)
    then false
    else if not (len == word words 1) && clbit ver
    then false
    else true

-- How many bytes the short header lacks.
unfoldable pub missing : ℕ → ℕ
missing ver =
    (if clbit ver then 0 else 2) + (if cfbit ver then 0 else 4) + (if psbit ver then 0 else 2)

-- The full header, with the words that are there and the call's values for those that are not.
unfoldable pub full_header : ℕ → List ℕ → DataCall → PayloadHdr
unfolding missing
full_header len words c =
    let ver = word words 0 in
    let i = if clbit ver then 1 else 0 in
    let j = if cfbit ver then i + 4 else i + 2 in
    record {
      ver = ver;
      length = if clbit ver then word words 1 else (len + missing ver) % 65536;
      tid = word words (i + 1);
      cid = word words (i + 2);
      ns = if cfbit ver then word words (i + 3) else c.data_rec_seq_num;
      nr = if cfbit ver then word words (i + 4) else c.data_seq_num;
      o_size = if psbit ver then word words (j + 1) else 0;
    }

-- The sequence numbers of a full header: the call after it, or a refusal.
unfoldable pub sequence : PayloadHdr → DataCall → Option DataCall
unfolding already_received
sequence h c =
    if h.ns == c.data_seq_num
    then some
        (record c { data_rec_seq_num = (c.data_rec_seq_num + 1) % 65536; pnu = true; plr = h.nr })
    else if already_received h.ns c.data_rec_seq_num
    then none
    else if leb h.ns (c.data_rec_seq_num + payload_fudge)
    then some (record c { data_rec_seq_num = h.ns; plr = h.nr })
    else none

-- `room` is the space in front of the packet. The result is the full header, the new length and the
-- call; `none` is -EINVAL, which leaves the call as it was.
unfoldable pub expand_payload : ℕ → ℕ → List ℕ → DataCall → Option (PayloadHdr × ℕ × DataCall)
unfolding full_header sequence missing
expand_payload room len words c =
    let ver = word words 0 in
    let h = full_header len words c in
    if ltb room (missing ver)
    then none
    else elim (sequence h c) [ none ↦ none | some c' ↦ some (h, len + missing ver, c') ]
