-- ===== src/Pppoe/Tags/Find.antt =====
-- `findTag` against the tag format: the first tag of the type, its position, and that the copy fits.
use zy_agf.Prelude.{
  ℕ, zero, suc, ◌+◌, ◌*◌, ◌≤◌, ◌<◌, Bool, true, Option, none, some, List, [], ◌∷◌, ◌++◌, ◌≡◌, ◌⊎◌,
  inl, inr, refl, sym, ap, ◌∙◌, arith, Bool-cases, ◌==◌, if◌then◌else◌, length, take, drop,
  take-append-drop, length-take, length-append,
}
use zy_agf.Pppoe.Packet.{Packet, tag_hdr_size, eth_data_len, eth_jumbo_len, max_pppoe_payload}
use zy_agf.Pppoe.Tags.{
  Tag, Header, no_room, end_of_list, too_long, tag, read_header, find_from, find_tag, is_sane,
}
use zy_agf.Pppoe.Tags.Scan.{Scan, scan_total}
use zy_agf.Pppoe.Tags.Parse.{
  Reads, is_sane-fits, header-short, header-ended, header-overrun, header-one, header_value,
  advance,
}

-- The first tag of a type in a list of tags that begins at position `cur`.
abbrev pub locate : ℕ → ℕ → List Tag → Option (ℕ × Tag)
locate type cur [] = none
locate type cur (t ∷ ts) =
    let later = locate type (cur + tag_hdr_size + length t.value) ts in
    if t.type == type then some (cur, t) else later

module _ (payload : List ℕ) (type : ℕ) where
  find_from-stop :
      (len cur fuel : ℕ) {h : Header}
      → read_header payload len cur ≡ some h
      → (h ≡ no_room) ⊎ (h ≡ end_of_list) ⊎ (h ≡ too_long)
      → find_from payload len type (suc fuel) cur ≡ some none
  unfolding find_from
  find_from-stop len cur fuel q h = ground arith

  find_from-tag :
      (len cur fuel : ℕ) (t n : ℕ) {v : List ℕ}
      → read_header payload len cur ≡ some (tag t n)
      → take n (drop (cur + tag_hdr_size) payload) ≡ v
      → find_from payload len type (suc fuel) cur ≡ (
          if t == type
          then some (some (cur, record { type = t; value = v }))
          else find_from payload len type fuel (cur + tag_hdr_size + n))
  unfolding find_from
  find_from-tag len cur fuel t n q v = elim (Bool-cases (t == type)) [
    | inl same ↦ rw (find_from, q, same, v)
    | inr other ↦ rw (find_from, q, other)
  ]

  find_from-Scan :
      (pre after : List ℕ) {bytes : List ℕ} {ts : List Tag} {ok : Bool} (len cur fuel : ℕ)
      → Scan bytes ts ok
      → payload ≡ pre ++ (bytes ++ after)
      → len ≡ length pre + length bytes
      → cur ≡ length pre
      → length bytes < fuel
      → find_from payload len type fuel cur ≡ some (locate type cur ts)
  find_from-Scan pre after len cur zero s p l c f = absurd (omega arith)
  find_from-Scan pre after {bytes} len cur (suc fuel) (Scan.short h) p l c f =
      find_from-stop len cur fuel (header-short payload pre after bytes len cur p l c h) (inl refl)
  find_from-Scan pre after {bytes} len cur (suc fuel) (Scan.ended a b rest q) p l c f =
      find_from-stop len cur fuel (header-ended payload pre after bytes len cur p l c a b rest q)
        (inr (inl refl))
  find_from-Scan pre after {bytes} len cur (suc fuel) (Scan.overrun t0 t1 a b rest q nz over) p l c
        f =
      find_from-stop len cur fuel
        (header-overrun payload pre after bytes len cur p l c t0 t1 a b rest q nz over)
        (inr (inr refl))
  find_from-Scan pre after {bytes} len cur (suc fuel) (Scan.one t0 t1 a b value rest q nz len_eq s)
        p l c f =
      let step =
        find_from-tag len cur fuel (t0 * 256 + t1) (length value)
          (header-one payload pre after bytes len cur p l c t0 t1 a b value rest q nz len_eq)
          (header_value payload pre after bytes len cur p l c t0 t1 a b value rest q) in
      let later =
        find_from-Scan (pre ++ (t0 ∷ t1 ∷ a ∷ b ∷ value)) after len
          (cur + tag_hdr_size + length value) fuel s
          (p ∙ rw q (sym (advance pre after t0 t1 a b value rest)))
          (omega (
            arith,
            length-append pre (t0 ∷ t1 ∷ a ∷ b ∷ value),
            length-append value rest,
            ap (length {A = ℕ}) q,
          ))
          (omega (arith, length-append pre (t0 ∷ t1 ∷ a ∷ b ∷ value)))
          (omega (arith, ap (length {A = ℕ}) q, length-append value rest)) in
      step ∙ elim (Bool-cases (t0 * 256 + t1 == type)) [
        | inl same ↦ rw same
        | inr other ↦ rw other later
      ]

-- For a packet that passes the sanity checks, and whose length is within its array, `findTag` answers with
-- the first tag of the type among those that the bytes hold, and with its position, or NULL if there is
-- none; also where the bytes end in a broken tag.
pub find_tag-Reads :
    (p : Packet) (type : ℕ) {ts : List Tag} {ok : Bool}
    → is_sane p ≡ true
    → p.length ≤ length p.payload
    → Reads p ts ok
    → find_tag p type ≡ some (locate type 0 ts)
unfolding find_tag
find_tag-Reads p type sane fits s = rw sane (
    find_from-Scan p.payload type [] (drop p.length p.payload) p.length 0 (suc p.length) s
      (sym (take-append-drop p.length p.payload)) (omega (arith, length-take p.length p.payload))
      refl (omega (arith, length-take p.length p.payload)))

-- A tag that is found lies inside the bytes that were read.
locate-Scan :
    {bytes : List ℕ} {ts : List Tag} {ok : Bool} (type cur loc : ℕ) (t : Tag)
    → Scan bytes ts ok
    → locate type cur ts ≡ some (loc, t)
    → (t.type ≡ type) × (cur ≤ loc) × (loc + tag_hdr_size + length t.value ≤ cur + length bytes)
locate-Scan type cur loc t (Scan.short h) e = cc
locate-Scan type cur loc t (Scan.ended a b rest q) e = cc
locate-Scan type cur loc t (Scan.overrun t0 t1 a b rest q nz over) e = cc
locate-Scan {bytes} type cur loc t (Scan.one {ts} t0 t1 a b value rest q nz len_eq s) e =
    let size : length bytes ≡ 4 + (length value + length rest) =
      omega (arith, ap (length {A = ℕ}) q, length-append value rest) in
    elim (Bool-cases (t0 * 256 + t1 == type)) [
      | inl same ↦
          let h : some (cur, record { type = t0 * 256 + t1; value = value }) ≡ some (loc, t) =
            rw same at e in
          ground (arith, h)
      | inr other ↦
          let h : locate type (cur + tag_hdr_size + length value) ts ≡ some (loc, t) =
            rw other at e in
          let ih = locate-Scan type (cur + tag_hdr_size + length value) loc t s h in
          (ih.0, omega arith, omega arith)
    ]

-- A tag found in a packet that passes the sanity checks, with its array whole, is of the type sought and
-- lies inside the packet's length, and its bytes fit the 1500 of `PPPoETag.payload`: the `memcpy` of
-- `findTag` stays inside both.
pub find_tag_bounds :
    (p : Packet) (type loc : ℕ) (t : Tag)
    → is_sane p ≡ true
    → length p.payload ≡ eth_jumbo_len
    → find_tag p type ≡ some (some (loc, t))
    → (t.type ≡ type)
      × (loc + tag_hdr_size + length t.value ≤ p.length)
      × (length t.value ≤ eth_data_len)
find_tag_bounds p type loc t sane whole e =
    let s = scan_total (take p.length p.payload) in
    let found : locate type 0 s.tags ≡ some (loc, t) =
      cc (find_tag-Reads p type sane (is_sane-fits p sane whole) s.scan) in
    let b = locate-Scan type 0 loc t s.scan found in
    let small = sane_length p sane in
    (
      b.0,
      omega (arith, length-take p.length p.payload),
      omega (arith, length-take p.length p.payload),
    )
  where
    sane_length : (q : Packet) → is_sane q ≡ true → q.length ≤ max_pppoe_payload
    sane_length q h = unfold is_sane in ground arith
