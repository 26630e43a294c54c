-- ===== src/Pppoe/Tags.antt =====
-- rp-pppoe/src/common.c: `parsePacket` and `findTag`. A read of `payload` is `get_elem?`, so `none`
-- is a read out of the array; it also stands for fuel that ran out. The fuel is one more than the
-- packet's length, and each round moves on by at least four bytes.
pub mod Scan
pub mod Parse
pub mod Find
pub mod Keeps
use zy_agf.Prelude.{
  ℕ, zero, suc, ◌+◌, ◌*◌, Bool, true, false, Option, none, some, List, ◌==◌, ltb, leb,
  if◌then◌else◌, get_elem?, take, drop, ◌>>=◌,
}
use zy_agf.Pppoe.Packet.{Packet, pppoe_ver, pppoe_type, max_pppoe_payload, tag_hdr_size}

-- A tag in host order; `value` is its payload.
pub record Tag : Type 0 where
  pub type : ℕ
  pub value : List ℕ

-- What the loop finds at its position: no room for a header, TAG_END_OF_LIST, a length that
-- runs past the packet, or a header with its type and length.
pub data Header : Type 0 where
  no_room end_of_list too_long : Header
  tag : ℕ → ℕ → Header

unfoldable pub read_header : List ℕ → ℕ → ℕ → Option Header
read_header payload len cur =
    if leb (cur + tag_hdr_size) len
    then (do
      t0 ← get_elem? payload cur
      t1 ← get_elem? payload (cur + 1)
      l0 ← get_elem? payload (cur + 2)
      l1 ← get_elem? payload (cur + 3)
      let tag_type = t0 * 256 + t1
      let tag_len = l0 * 256 + l1
      some (
          if tag_type == 0
          then end_of_list
          else if ltb len (cur + tag_len + tag_hdr_size)
          then too_long
          else tag tag_type tag_len))
    else some no_room

-- The sanity checks in front of the loop.
unfoldable pub is_sane : Packet → Bool
is_sane p =
    if pppoe_ver p.vertype == 1
    then (if pppoe_type p.vertype == 1 then leb p.length max_pppoe_payload else false)
    else false

-- `func` is handed the bytes `data[0..len)`, and returns the new `*extra`.
abbrev pub ParseFunc : Type 0 → Type 0
ParseFunc E = ℕ → ℕ → List ℕ → E → E

-- The result is true for 0 and false for -1, beside `*extra`.
unfoldable pub parse_from : {E : Type 0} → ParseFunc E → List ℕ → ℕ → ℕ → ℕ → E → Option (Bool × E)
parse_from func payload len zero cur extra = none
parse_from func payload len (suc fuel) cur extra = elim (read_header payload len cur) [
  | none ↦ none
  | some no_room ↦ some (true, extra)
  | some end_of_list ↦ some (true, extra)
  | some too_long ↦ some (false, extra)
  | some (tag t l) ↦
      parse_from func payload len fuel (cur + tag_hdr_size + l)
        (func t l (take l (drop (cur + tag_hdr_size) payload)) extra)
]

unfoldable pub parse_packet : {E : Type 0} → ParseFunc E → Packet → E → Option (Bool × E)
parse_packet func p extra =
    if is_sane p
    then parse_from func p.payload p.length (suc p.length) 0 extra
    else some (false, extra)

-- The position of the tag found, and the copy left in `*tag`.
unfoldable pub find_from : List ℕ → ℕ → ℕ → ℕ → ℕ → Option (Option (ℕ × Tag))
find_from payload len type zero cur = none
find_from payload len type (suc fuel) cur = elim (read_header payload len cur) [
  | none ↦ none
  | some no_room ↦ some none
  | some end_of_list ↦ some none
  | some too_long ↦ some none
  | some (tag t l) ↦ elim (t == type) [
    | true ↦
        some (some (cur, record { type = t; value = take l (drop (cur + tag_hdr_size) payload) }))
    | false ↦ find_from payload len type fuel (cur + tag_hdr_size + l)
  ]
]

unfoldable pub find_tag : Packet → ℕ → Option (Option (ℕ × Tag))
find_tag p type =
    if is_sane p then find_from p.payload p.length type (suc p.length) 0 else some none
