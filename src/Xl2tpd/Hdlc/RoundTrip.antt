-- ===== src/Xl2tpd/Hdlc/RoundTrip.antt =====
-- A packet that `write_packet` converts is read by `read_packet`.
use zy_agf.Prelude.{
  ℕ, ◌+◌, ◌-◌, drop-append, ◌≤◌, ◌<◌, ◌%◌, ◌/◌, bit_xor, Bool, true, false, not, ◌&&◌, Option, none,
  some, List, [], ◌∷◌, ◌++◌, ◌==◌, leb, if◌then◌else◌, length, drop, ◌≡◌, refl, sym, ap, ◌∙◌, arith,
  Bool-cases, inl, inr, append_assoc, length-append, holds_below, holds_below_lem, append-nil,
  take-append, lt→ltb, le→leb,
}
use zy_agf.Fcs.{fcs_bytes, fcs_of, add_fcs}
use zy_agf.Pppoe.Framing.RoundTrip.{Bytes, fcs_bytes-Bytes, Bytes-append}
use zy_agf.Xl2tpd.Hdlc.{
  ppp_flag, ppp_escape, ppp_trans, max_recv_size, payload_hdr_size, escapes, expand, write_packet,
  packet, Read, returned, read_bytes, read_packet,
}

-- An escaped byte is neither sign, and escaping it again gives it back; checked for all.
escape_test : ℕ → Bool
escape_test c =
    if escapes c
    then not (bit_xor c ppp_trans == ppp_escape)
      && not (bit_xor c ppp_trans == ppp_flag)
      && bit_xor (bit_xor c ppp_trans) ppp_trans == c
    else not (c == ppp_escape) && not (c == ppp_flag) && bit_xor c 0 == c

escape_table : holds_below 256 escape_test ≡ true
unfolding holds_below escape_test
escape_table = refl

escape_byte : (c : ℕ) → c < 256 → escape_test c ≡ true
escape_byte c h = holds_below_lem 256 escape_test c escape_table h

pub read_bytes-stored :
    (maxlen escape c d : ℕ) (buf rest : List ℕ)
    → (c == ppp_escape) ≡ false
    → (c == ppp_flag) ≡ false
    → bit_xor c escape ≡ d
    → length buf < maxlen
    → read_bytes maxlen escape buf (c ∷ rest) ≡ read_bytes maxlen 0 (buf ++ (d ∷ [])) rest
unfolding read_bytes
read_bytes-stored maxlen escape c d buf rest e f g k =
    rw (f, e, lt→ltb (length buf) maxlen k, g) refl

read_bytes-escaped :
    (maxlen escape : ℕ) (buf rest : List ℕ)
    → read_bytes maxlen escape buf (ppp_escape ∷ rest) ≡ read_bytes maxlen ppp_trans buf rest
unfolding read_bytes
read_bytes-escaped maxlen escape buf rest = refl

-- The flag ends a packet of two bytes of check sequence and what stands before.
read_bytes-flag :
    (maxlen x y : ℕ) (p rest : List ℕ)
    → read_bytes maxlen 0 (p ++ (x ∷ y ∷ [])) (ppp_flag ∷ rest)
      ≡ returned packet (record { rbuf = rest; buf = p })
unfolding read_bytes
read_bytes-flag maxlen x y p rest =
    let size = length-append p (x ∷ y ∷ []) in
    rw
      (
        le→leb 2 (length (p ++ (x ∷ y ∷ []))) (omega (arith, size)),
        minus_two (length (p ++ (x ∷ y ∷ []))) size,
        take-append p (x ∷ y ∷ []),
      )
      refl
  where
    minus_two : (n : ℕ) → n ≡ length p + 2 → n - 2 ≡ length p
    minus_two n e = omega arith

-- A result that was made from a result.
mapped :
    {A B : Type 0} (f : A → B) (o : Option A) (b : B)
    → elim o [ none ↦ none | some a ↦ some (f a) ] ≡ some b
    → (a : A) × (o ≡ some a) × (f a ≡ b)
mapped f none b e = cc
mapped f (some a) b e = (a, refl, cc)

-- What `expand` makes of one byte more.
expand_escaped :
    (pos c : ℕ) (data' wire : List ℕ)
    → escapes c ≡ true
    → expand pos (c ∷ data') ≡ some wire
    → (w : List ℕ) × (expand (pos + 2) data' ≡ some w)
      × (ppp_escape ∷ bit_xor c ppp_trans ∷ w ≡ wire)
unfolding expand
expand_escaped pos c data' wire s e = elim (Bool-cases (leb (max_recv_size - 4) pos)) [
  | inl full ↦ absurd (let q = rw full at e in cc)
  | inr room ↦
      mapped (λ w. ppp_escape ∷ bit_xor c ppp_trans ∷ w) (expand (pos + 2) data') wire
        (rw (room, s) at e)
]

expand_plain :
    (pos c : ℕ) (data' wire : List ℕ)
    → escapes c ≡ false
    → expand pos (c ∷ data') ≡ some wire
    → (w : List ℕ) × (expand (pos + 1) data' ≡ some w) × (c ∷ w ≡ wire)
unfolding expand
expand_plain pos c data' wire s e = elim (Bool-cases (leb (max_recv_size - 4) pos)) [
  | inl full ↦ absurd (let q = rw full at e in cc)
  | inr room ↦ mapped (λ w. c ∷ w) (expand (pos + 1) data') wire (rw (room, s) at e)
]

-- The bytes that `expand` makes of a buffer are stored as that buffer.
read_bytes-expand :
    (maxlen pos : ℕ) (buf data' wire rest : List ℕ)
    → Bytes data'
    → length buf + length data' ≤ maxlen
    → expand pos data' ≡ some wire
    → read_bytes maxlen 0 buf (wire ++ rest) ≡ read_bytes maxlen 0 (buf ++ data') (ppp_flag ∷ rest)
read_bytes-expand maxlen pos buf [] wire rest h k e =
    let q : ppp_flag ∷ [] ≡ wire = unfold expand in cc in rw (sym q, append-nil) refl
read_bytes-expand maxlen pos buf (c ∷ data') wire rest h k e =
    let later = λ (pos' : ℕ) (w : List ℕ) (q : expand pos' data' ≡ some w).
      read_bytes-expand maxlen pos' (buf ++ (c ∷ [])) data' w rest h.1
        (omega (arith, length-append buf (c ∷ []))) q
      ∙ ap (λ b. read_bytes maxlen 0 b (ppp_flag ∷ rest)) (append_assoc buf (c ∷ []) data') in
    elim (Bool-cases (escapes c)) [
      | inl s ↦
          let (w, q, r) = expand_escaped pos c data' wire s e in
          let t : ((bit_xor c ppp_trans == ppp_escape) ≡ false)
              × ((bit_xor c ppp_trans == ppp_flag) ≡ false)
              × (bit_xor (bit_xor c ppp_trans) ppp_trans ≡ c) =
            special c h.0 s in
          ap (λ v. read_bytes maxlen 0 buf (v ++ rest)) (sym r)
          ∙ read_bytes-escaped maxlen 0 buf (bit_xor c ppp_trans ∷ (w ++ rest))
          ∙ read_bytes-stored maxlen ppp_trans (bit_xor c ppp_trans) c buf (w ++ rest) t.0 t.1 t.2
              (omega arith)
          ∙ later (pos + 2) w q
      | inr s ↦
          let (w, q, r) = expand_plain pos c data' wire s e in
          let t = plain c h.0 s in
          ap (λ v. read_bytes maxlen 0 buf (v ++ rest)) (sym r)
          ∙ read_bytes-stored maxlen 0 c c buf (w ++ rest) t.0 t.1 t.2 (omega arith)
          ∙ later (pos + 1) w q
    ]
  where
    special :
        (c : ℕ)
        → c < 256
        → escapes c ≡ true
        → ((bit_xor c ppp_trans == ppp_escape) ≡ false)
          × ((bit_xor c ppp_trans == ppp_flag) ≡ false)
          × (bit_xor (bit_xor c ppp_trans) ppp_trans ≡ c)
    special c h e = let t = escape_byte c h in unfold escape_test in ground (arith, t)

    plain :
        (c : ℕ)
        → c < 256
        → escapes c ≡ false
        → ((c == ppp_escape) ≡ false) × ((c == ppp_flag) ≡ false) × (bit_xor c 0 ≡ c)
    plain c h e = let t = escape_byte c h in unfold escape_test in ground (arith, t)

-- The flag before a frame is passed over.
read_bytes_first :
    (maxlen : ℕ) (rest : List ℕ)
    → read_bytes maxlen 0 [] (ppp_flag ∷ rest) ≡ read_bytes maxlen 0 [] rest
unfolding read_bytes
read_bytes_first maxlen rest = refl

read_bytes-frame :
    (maxlen : ℕ) (data' w rest : List ℕ)
    → Bytes data'
    → length data' + 2 ≤ maxlen
    → expand 1 (add_fcs data') ≡ some w
    → read_bytes maxlen 0 [] (ppp_flag ∷ (w ++ rest))
      ≡ returned packet (record { rbuf = rest; buf = data' })
unfolding add_fcs
read_bytes-frame maxlen data' w rest h k q =
    let fcs = fcs_of 0xffff data' in
    read_bytes_first maxlen (w ++ rest)
    ∙ read_bytes-expand maxlen 1 [] (data' ++ fcs_bytes fcs) w rest
        (Bytes-append data' (fcs_bytes fcs) h (fcs_bytes-Bytes fcs))
        (omega (arith, length-append data' (fcs_bytes fcs))) q
    ∙ read_bytes-flag maxlen (bit_xor fcs 0xffff % 256) (bit_xor fcs 0xffff / 256 % 256) data' rest

write_packet_wire :
    (o_size : ℕ) (header data' wire : List ℕ)
    → length header ≡ payload_hdr_size + o_size
    → write_packet o_size (header ++ data') ≡ some wire
    → (w : List ℕ) × (expand 1 (add_fcs data') ≡ some w) × (ppp_flag ∷ w ≡ wire)
unfolding write_packet
write_packet_wire o_size header data' wire l e =
    let behind : drop (payload_hdr_size + o_size) (header ++ data') ≡ data' =
      ap (λ n. drop n (header ++ data')) (sym l) ∙ drop-append header data' in
    mapped (λ w. ppp_flag ∷ w) (expand 1 (add_fcs data')) wire (rw (write_packet, behind) at e)

-- What `write_packet` writes for a packet of bytes with a header before it, `read_packet` reads as that
-- packet, where its buffer has room for it and two bytes more; what follows stays in `rbuf`.
pub read_packet-write_packet :
    (maxlen o_size : ℕ) (header data' wire rest : List ℕ) (reads : List Read)
    → length header ≡ payload_hdr_size + o_size
    → Bytes data'
    → length data' + 2 ≤ maxlen
    → write_packet o_size (header ++ data') ≡ some wire
    → read_packet maxlen reads (record { rbuf = wire ++ rest; buf = [] })
      ≡ record { outcome = packet; line = record { rbuf = rest; buf = data' }; reads = reads }
unfolding read_packet
read_packet-write_packet maxlen o_size header data' wire rest reads l h k e =
    let (w, q, r) = write_packet_wire o_size header data' wire l e in
    let frame : read_bytes maxlen 0 [] (wire ++ rest)
        ≡ returned packet (record { rbuf = rest; buf = data' }) =
      ap (λ v. read_bytes maxlen 0 [] (v ++ rest)) (sym r)
      ∙ read_bytes-frame maxlen data' w rest h k q in
    rw (read_packet, frame) refl
