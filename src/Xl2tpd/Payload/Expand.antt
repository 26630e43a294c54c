-- ===== src/Xl2tpd/Payload/Expand.antt =====
-- A header that the daemon writes is accepted and expanded by the daemon that reads it.
use zy_agf.Prelude.{
  sym, ◌∙◌, ap, some_inj, Option, ℕ, ◌+◌, ◌%◌, ◌≤◌, ◌<◌, Bool, true, ◌||◌, none, some, List, ◌++◌,
  if◌then◌else◌, ◌≡◌, arith, ℤ, to_u16, get_or,
}
use zy_agf.Xl2tpd.Payload.{
  PayloadHdr, DataCall, add_payload_hdr, check_payload, missing, full_header, sequence,
  expand_payload,
}

-- A header of `add_payload_hdr`, in front of `len` bytes with `len` + 12 below 65536, passes
-- `check_payload` in every combination of the bits, with the sanity checks and without.
pub check_payload-add_payload_hdr :
    (tid : ℤ) (c : DataCall) (len : ℕ) (body : List ℕ) (sanity : Bool)
    → len + 12 < 65536
    → let (words, total, c') = add_payload_hdr tid c len in
      check_payload true sanity total (words ++ body) ≡ true
unfolding add_payload_hdr check_payload
check_payload-add_payload_hdr tid c len body sanity h = ground arith

-- From a header of `add_payload_hdr`, in front of `len` bytes with `len` + 12 below 65536, in every
-- combination of the bits for the length and the numbers, the receiver recovers the tunnel and the call, and the sender's numbers where they were sent; else it puts in its
-- own. The offset is 0.
pub full_header-add_payload_hdr :
    (tid : ℤ) (c d : DataCall) (len : ℕ) (body : List ℕ)
    → len + 12 < 65536
    → let (words, total, c') = add_payload_hdr tid c len in
      let h = full_header total (words ++ body) d in
      (h.tid ≡ to_u16 tid)
      × (h.cid ≡ c.cid % 65536)
      × (h.ns ≡ (if c.fbit || c.ourfbit then c.data_seq_num else d.data_rec_seq_num))
      × (h.nr ≡ (if c.fbit || c.ourfbit then c.data_rec_seq_num else d.data_seq_num))
      × (h.o_size ≡ 0)
unfolding add_payload_hdr full_header
full_header-add_payload_hdr tid c d len body h = ground arith

-- With the 8 bytes of room that the network loop keeps in front, every packet gets a full header of
-- 14 bytes for the short one, or is refused for its number alone.
pub expand_payload_room :
    (room len : ℕ) (words : List ℕ) (c : DataCall)
    → 8 ≤ room
    → expand_payload room len words c ≡ elim (sequence (full_header len words c) c) [
      | none ↦ none
      | some c' ↦ some (full_header len words c, len + missing (get_or words 0 0), c')
    ]
unfolding expand_payload
expand_payload_room room len words c h = ground arith

-- What is taken has the full header and its size.
taken :
    (o : Option DataCall) (full h : PayloadHdr) (size n : ℕ) {d' : DataCall}
    → elim o as (λ x. Option (PayloadHdr × ℕ × DataCall)) [
      | none ↦ none
      | some c' ↦ some (full, size, c')
    ]
      ≡ some (h, n, d')
    → (full ≡ h) × (size ≡ n)
taken none full h size n e = cc
taken (some c') full h size n e = (ap (λ r. r.0) (some_inj e), ap (λ r. r.1) (some_inj e))

whole_size :
    (tid : ℤ) (c : DataCall) (len : ℕ) (body : List ℕ)
    → (add_payload_hdr tid c len).1 + missing (get_or ((add_payload_hdr tid c len).0 ++ body) 0 0)
      ≡ len + 14
unfolding add_payload_hdr missing
whole_size tid c len body = ground arith

-- A packet with a header of `add_payload_hdr` in front of `len` bytes, with `len` + 12 below 65536, in
-- every combination of the bits for the length and the numbers: it passes `check_payload`, with the
-- sanity checks and without; and where `expand_payload`, with 8 bytes of room in front, does not refuse
-- it for its number, the full header has the tunnel, the call and the sender's numbers where they were
-- sent, else the receiver's own, and the offset 0, and the packet has 14 bytes of header in front of
-- the `len` bytes.
pub expand_payload-add_payload_hdr :
    (tid : ℤ) (c d : DataCall) (len room : ℕ) (body : List ℕ) (sanity : Bool) {h : PayloadHdr}
    {n : ℕ} {d' : DataCall}
    → len + 12 < 65536
    → 8 ≤ room
    → expand_payload room (add_payload_hdr tid c len).1 ((add_payload_hdr tid c len).0 ++ body) d
      ≡ some (h, n, d')
    → (check_payload true sanity
          (add_payload_hdr tid c len).1
          ((add_payload_hdr tid c len).0 ++ body)
        ≡ true)
      × (h.tid ≡ to_u16 tid)
      × (h.cid ≡ c.cid % 65536)
      × (h.ns ≡ (if c.fbit || c.ourfbit then c.data_seq_num else d.data_rec_seq_num))
      × (h.nr ≡ (if c.fbit || c.ourfbit then c.data_rec_seq_num else d.data_seq_num))
      × (h.o_size ≡ 0)
      × (n ≡ len + 14)
expand_payload-add_payload_hdr tid c d len room body sanity {h} {n} small space e =
    let q = sym (expand_payload_room room _ ((add_payload_hdr tid c len).0 ++ body) d space) ∙ e in
    let (same, size) = taken (sequence (full_header _ _ d) d) _ h _ n q in
    let (t, k, ns, nr, o) = full_header-add_payload_hdr tid c d len body small in
    (
      check_payload-add_payload_hdr tid c len body sanity small,
      ap (λ x. x.tid) (sym same) ∙ t,
      ap (λ x. x.cid) (sym same) ∙ k,
      ap (λ x. x.ns) (sym same) ∙ ns,
      ap (λ x. x.nr) (sym same) ∙ nr,
      ap (λ x. x.o_size) (sym same) ∙ o,
      sym size ∙ whole_size tid c len body,
    )
