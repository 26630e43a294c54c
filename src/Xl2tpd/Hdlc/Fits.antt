-- ===== src/Xl2tpd/Hdlc/Fits.antt =====
-- `write_packet` has room for every packet of up to 2043 bytes.
use zy_agf.Prelude.{
  ℕ, ◌+◌, ◌-◌, ◌*◌, drop-append, ◌≤◌, ◌<◌, bit_xor, some, List, [], ◌∷◌, ◌++◌, length, drop, ◌≡◌,
  refl, sym, ap, ◌∙◌, arith, Bool-cases, inl, inr, length-append, lt→leb,
}
use zy_agf.Fcs.{fcs_bytes, fcs_of, add_fcs}
use zy_agf.Xl2tpd.Hdlc.{
  ppp_flag, ppp_escape, ppp_trans, max_recv_size, payload_hdr_size, escapes, expand, write_packet,
}

expand_fits :
    (buf : List ℕ) (pos : ℕ)
    → pos + 2 * length buf < max_recv_size - 2
    → (wire : List ℕ) × (expand pos buf ≡ some wire)
unfolding expand
expand_fits [] pos h = (ppp_flag ∷ [], refl)
expand_fits (c ∷ buf) pos h =
    let room = lt→leb (max_recv_size - 4) pos (omega arith) in
    elim (Bool-cases (escapes c)) [
      | inl s ↦
          let (w, q) = expand_fits buf (pos + 2) (omega arith) in
          (ppp_escape ∷ bit_xor c ppp_trans ∷ w, rw (room, s, q) refl)
      | inr s ↦
          let (w, q) = expand_fits buf (pos + 1) (omega arith) in (c ∷ w, rw (room, s, q) refl)
    ]

written :
    (o_size : ℕ) (header data' : List ℕ)
    → drop (payload_hdr_size + o_size) (header ++ data') ≡ data'
    → (w : List ℕ) × (expand 1 (add_fcs data') ≡ some w)
    → (wire : List ℕ) × (write_packet o_size (header ++ data') ≡ some wire)
unfolding write_packet
written o_size header data' behind (w, q) = (ppp_flag ∷ w, rw (write_packet, behind, q) refl)

-- A packet of at most 2043 bytes is always written.
pub write_packet_fits :
    (o_size : ℕ) (header data' : List ℕ)
    → length header ≡ payload_hdr_size + o_size
    → length data' ≤ 2043
    → (wire : List ℕ) × (write_packet o_size (header ++ data') ≡ some wire)
unfolding write_packet
write_packet_fits o_size header data' l k =
    let behind : drop (payload_hdr_size + o_size) (header ++ data') ≡ data' =
      ap (λ n. drop n (header ++ data')) (sym l) ∙ drop-append header data' in
    written o_size header data' behind (
      expand_fits (add_fcs data') 1
        (unfold add_fcs in omega (arith, length-append data' (fcs_bytes (fcs_of 0xffff data')))))
