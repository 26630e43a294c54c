-- ===== src/Pppoe/Tags/Parse.antt =====
-- `parsePacket` against the tag format: it calls `func` on exactly the tags that the packet holds, in
-- order, stays inside the payload, and ends.
use zy_agf.Prelude.{
  ℕ, zero, suc, ◌+◌, ◌*◌, ◌/◌, ◌%◌, ◌≤◌, ◌<◌, Bool, true, false, some, List, [], ◌∷◌, ◌++◌, ◌≡◌,
  ◌≢◌, ◌⊎◌, inl, inr, refl, sym, ap, ap₂, subst, ◌∙◌, arith, ◌==◌, length, take, drop,
  take-append-drop, length-take, length-append, append_assoc, foldl, take-append, drop-append,
  lt→ltb, le→ltb,
}
use zy_agf.Pppoe.Packet.{Packet, tag_hdr_size, eth_jumbo_len}
use zy_agf.Pppoe.Tags.{
  Tag, Header, no_room, end_of_list, too_long, tag, read_header, ParseFunc, parse_from,
  parse_packet, is_sane,
}
use zy_agf.Pppoe.Tags.Scan.{
  Scan, scan_total, read_header-short, read_header-cons, encode_tags, encode_tag, encode16,
}

-- What a call of `func` on a tag does.
abbrev pub visit : {E : Type 0} → ParseFunc E → E → Tag → E
visit func e t = func t.type (length t.value) t.value e

pub eq_zero-false : (n : ℕ) → n ≢ 0 → (n == 0) ≡ false
eq_zero-false n h = ground arith

-- The header of a tag that fits is read as that tag.
pub read_header-one :
    (pre after : List ℕ) (t0 t1 a b : ℕ) (value rest : List ℕ)
    → t0 * 256 + t1 ≢ 0
    → length value ≡ a * 256 + b
    → read_header
        (pre ++ (t0 ∷ t1 ∷ a ∷ b ∷ ((value ++ rest) ++ after)))
        (length pre + suc (suc (suc (suc (length (value ++ rest))))))
        (length pre)
      ≡ some (tag (t0 * 256 + t1) (length value))
read_header-one pre after t0 t1 a b value rest nz len = rw (
  read_header-cons pre after t0 t1 a b (value ++ rest),
  eq_zero-false (t0 * 256 + t1) nz,
  le→ltb (length (value ++ rest)) (a * 256 + b) (omega (arith, length-append value rest)),
  len,
)

-- Where the loop stands after a tag: the same array, cut behind that tag.
pub advance :
    (pre after : List ℕ) (t0 t1 a b : ℕ) (value rest : List ℕ)
    → (pre ++ (t0 ∷ t1 ∷ a ∷ b ∷ value)) ++ (rest ++ after)
      ≡ pre ++ (t0 ∷ t1 ∷ a ∷ b ∷ ((value ++ rest) ++ after))
advance pre after t0 t1 a b value rest =
    append_assoc pre (t0 ∷ t1 ∷ a ∷ b ∷ value) (rest ++ after)
    ∙ ap (λ r. pre ++ (t0 ∷ t1 ∷ a ∷ b ∷ r)) (sym (append_assoc value rest after))

pub value_at :
    (pre after : List ℕ) (t0 t1 a b : ℕ) (value rest : List ℕ)
    → take
        (length value)
        (drop (length pre + 4) (pre ++ (t0 ∷ t1 ∷ a ∷ b ∷ ((value ++ rest) ++ after))))
      ≡ value
value_at pre after t0 t1 a b value rest =
    ap (take (length value)) (
      ap₂ drop {x = length pre + 4} (len_head) (cut)
      ∙ drop-append (pre ++ (t0 ∷ t1 ∷ a ∷ b ∷ [])) (value ++ (rest ++ after)))
    ∙ take-append value (rest ++ after)
  where
    len_head : length pre + 4 ≡ length (pre ++ (t0 ∷ t1 ∷ a ∷ b ∷ []))
    len_head = omega (arith, length-append pre (t0 ∷ t1 ∷ a ∷ b ∷ []))

    cut :
        pre ++ (t0 ∷ t1 ∷ a ∷ b ∷ ((value ++ rest) ++ after))
        ≡ (pre ++ (t0 ∷ t1 ∷ a ∷ b ∷ [])) ++ (value ++ (rest ++ after))
    cut =
        ap (λ r. pre ++ (t0 ∷ t1 ∷ a ∷ b ∷ r)) (append_assoc value rest after)
        ∙ sym (append_assoc pre (t0 ∷ t1 ∷ a ∷ b ∷ []) (value ++ (rest ++ after)))

-- What `read_header` gives at the position of the bytes, for each form that they can have.
module _ (payload pre after : List ℕ) (bytes : List ℕ) (len cur : ℕ)
    (p : payload ≡ pre ++ (bytes ++ after)) (l : len ≡ length pre + length bytes)
    (c : cur ≡ length pre) where
  pub header-short : length bytes < 4 → read_header payload len cur ≡ some no_room
  header-short h = rw (p, l, c) (read_header-short pre after bytes h)

  pub header-ended :
      (a b : ℕ) (rest : List ℕ)
      → bytes ≡ 0 ∷ 0 ∷ a ∷ b ∷ rest
      → read_header payload len cur ≡ some end_of_list
  header-ended a b rest q = rw (p, l, c, q) (read_header-cons pre after 0 0 a b rest)

  pub header-overrun :
      (t0 t1 a b : ℕ) (rest : List ℕ)
      → bytes ≡ t0 ∷ t1 ∷ a ∷ b ∷ rest
      → t0 * 256 + t1 ≢ 0
      → length rest < a * 256 + b
      → read_header payload len cur ≡ some too_long
  header-overrun t0 t1 a b rest q nz over =
      rw (p, l, c, q)
        (read_header-cons pre after t0 t1 a b rest
          ∙ rw (eq_zero-false (t0 * 256 + t1) nz, lt→ltb (length rest) (a * 256 + b) over))

  pub header-one :
      (t0 t1 a b : ℕ) (value rest : List ℕ)
      → bytes ≡ t0 ∷ t1 ∷ a ∷ b ∷ (value ++ rest)
      → t0 * 256 + t1 ≢ 0
      → length value ≡ a * 256 + b
      → read_header payload len cur ≡ some (tag (t0 * 256 + t1) (length value))
  header-one t0 t1 a b value rest q nz len_eq =
      rw (p, l, c, q) (read_header-one pre after t0 t1 a b value rest nz len_eq)

  pub header_value :
      (t0 t1 a b : ℕ) (value rest : List ℕ)
      → bytes ≡ t0 ∷ t1 ∷ a ∷ b ∷ (value ++ rest)
      → take (length value) (drop (cur + tag_hdr_size) payload) ≡ value
  header_value t0 t1 a b value rest q = rw (p, c, q) (value_at pre after t0 t1 a b value rest)

module _ {E : Type 0} (func : ParseFunc E) (payload : List ℕ) where
  parse_from-stop :
      (len cur fuel : ℕ) (e : E) {h : Header} {r : Bool × E}
      → read_header payload len cur ≡ some h
      → ((h ≡ no_room) × (r ≡ (true, e)))
        ⊎ ((h ≡ end_of_list) × (r ≡ (true, e)))
        ⊎ ((h ≡ too_long) × (r ≡ (false, e)))
      → parse_from func payload len (suc fuel) cur e ≡ some r
  unfolding parse_from
  parse_from-stop len cur fuel e q h = ground arith

  parse_from-tag :
      (len cur fuel : ℕ) (e : E) (t n : ℕ)
      → read_header payload len cur ≡ some (tag t n)
      → parse_from func payload len (suc fuel) cur e
        ≡ parse_from func payload len fuel
            (cur + tag_hdr_size + n)
            (func t n (take n (drop (cur + tag_hdr_size) payload)) e)
  unfolding parse_from
  parse_from-tag len cur fuel e t n q = rw (parse_from, q)

  -- The loop, started at the end of `pre` on the bytes that follow it.
  parse_from-Scan :
      (pre after : List ℕ) {bytes : List ℕ} {ts : List Tag} {ok : Bool} (len cur fuel : ℕ) (e : E)
      → Scan bytes ts ok
      → payload ≡ pre ++ (bytes ++ after)
      → len ≡ length pre + length bytes
      → cur ≡ length pre
      → length bytes < fuel
      → parse_from func payload len fuel cur e ≡ some (ok, foldl (visit func) e ts)
  parse_from-Scan pre after len cur zero e s p l c f = absurd (omega arith)
  parse_from-Scan pre after {bytes} len cur (suc fuel) e (Scan.short h) p l c f =
      parse_from-stop len cur fuel e (header-short payload pre after bytes len cur p l c h)
        (inl (refl, refl))
  parse_from-Scan pre after {bytes} len cur (suc fuel) e (Scan.ended a b rest q) p l c f =
      parse_from-stop len cur fuel e (header-ended payload pre after bytes len cur p l c a b rest q)
        (inr (inl (refl, refl)))
  parse_from-Scan pre after {bytes} len cur (suc fuel) e (Scan.overrun t0 t1 a b rest q nz over) p l
        c f =
      parse_from-stop len cur fuel e
        (header-overrun payload pre after bytes len cur p l c t0 t1 a b rest q nz over)
        (inr (inr (refl, refl)))
  parse_from-Scan pre after {bytes} len cur (suc fuel) e
        (Scan.one t0 t1 a b value rest q nz len_eq s) p l c f =
      parse_from-tag len cur fuel e (t0 * 256 + t1) (length value)
        (header-one payload pre after bytes len cur p l c t0 t1 a b value rest q nz len_eq)
      ∙ rw (header_value payload pre after bytes len cur p l c t0 t1 a b value rest q) (
          parse_from-Scan (pre ++ (t0 ∷ t1 ∷ a ∷ b ∷ value)) after len
            (cur + tag_hdr_size + length value) fuel _ s
            (p ∙ rw q (sym (advance pre after t0 t1 a b value rest)))
            (omega (
              arith,
              length-append pre (t0 ∷ t1 ∷ a ∷ b ∷ value),
              length-append value rest,
              ap (length {A = ℕ}) q,
            ))
            (omega (arith, length-append pre (t0 ∷ t1 ∷ a ∷ b ∷ value)))
            (omega (arith, ap (length {A = ℕ}) q, length-append value rest)))

-- `Reads p ts ok`: the bytes of the packet, as many as its length field says, hold the tags `ts`.
abbrev pub Reads : Packet → List Tag → Bool → Type 0
Reads p ts ok = Scan (take p.length p.payload) ts ok

-- The call visits exactly the tags of the packet, in order, and returns 0 exactly when the string of
-- tags does not end in a header that runs past the length.
pub parse_packet-Reads :
    {E : Type 0} (func : ParseFunc E) (p : Packet) (e : E) {ts : List Tag} {ok : Bool}
    → is_sane p ≡ true
    → p.length ≤ length p.payload
    → Reads p ts ok
    → parse_packet func p e ≡ some (ok, foldl (visit func) e ts)
unfolding parse_packet
parse_packet-Reads func p e sane fits s = rw sane (
    parse_from-Scan func p.payload [] (drop p.length p.payload) p.length 0 (suc p.length) e s
      (sym (take-append-drop p.length p.payload)) (omega (arith, length-take p.length p.payload))
      refl (omega (arith, length-take p.length p.payload)))

pub is_sane-fits :
    (p : Packet) → is_sane p ≡ true → length p.payload ≡ eth_jumbo_len → p.length ≤ length p.payload
unfolding is_sane
is_sane-fits p sane whole = ground arith

-- For every packet that passes the sanity checks and whose array is whole, there are tags that its bytes
-- hold, and the call visits exactly those, in order: no read is outside the array, and the fuel is enough.
pub parse_packet_total :
    {E : Type 0} (func : ParseFunc E) (p : Packet) (e : E)
    → is_sane p ≡ true
    → length p.payload ≡ eth_jumbo_len
    → (ts : List Tag) × (ok : Bool) × Reads p ts ok
      × (parse_packet func p e ≡ some (ok, foldl (visit func) e ts))
parse_packet_total func p e sane whole =
    let s = scan_total (take p.length p.payload) in
    (s.tags, s.ok, s.scan, parse_packet-Reads func p e sane (is_sane-fits p sane whole) s.scan)

-- The tags that can be written: every type but TAG_END_OF_LIST.
pub data Writable : List Tag → Type 0 where
  nil : Writable []
  cons : {t : Tag} {ts : List Tag} → t.type ≢ 0 → Writable ts → Writable (t ∷ ts)

pub Scan-cons :
    {ts : List Tag} {ok : Bool} (t : Tag) (rest : List ℕ)
    → t.type ≢ 0
    → Scan rest ts ok
    → Scan (encode_tag t rest) (t ∷ ts) ok
Scan-cons {ts} {ok} t rest nz s =
    subst (λ n. Scan (encode_tag t rest) (record { type = n; value = t.value } ∷ ts) ok)
      (bytes-eq t.type)
      (Scan.one (t.type / 256) (t.type % 256) (length t.value / 256) (length t.value % 256) t.value
        rest refl (omega arith) (omega arith) s)
  where
    bytes-eq : (n : ℕ) → n / 256 * 256 + n % 256 ≡ n
    bytes-eq n = omega arith

pub encode_tags-Scan : {ts : List Tag} → Writable ts → Scan (encode_tags ts []) ts true
encode_tags-Scan nil = Scan.short (omega arith)
encode_tags-Scan (cons {t} {ts} nz w) = Scan-cons t (encode_tags ts []) nz (encode_tags-Scan w)

pub encode_tags-append :
    (ts : List Tag) (rest : List ℕ) → encode_tags ts rest ≡ encode_tags ts [] ++ rest
encode_tags-append [] rest = refl
encode_tags-append (t ∷ ts) rest =
    ap (λ r. encode_tag t r) (encode_tags-append ts rest)
    ∙ ap (λ r. encode16 t.type (encode16 (length t.value) r))
        (sym (append_assoc t.value (encode_tags ts []) rest))

-- A packet that passes the sanity checks and holds the encoding of tags, none of type 0, up to its
-- length, with anything behind it, is parsed back: the call succeeds and visits those tags in order.
pub parse_packet-encode_tags :
    {E : Type 0} (func : ParseFunc E) (p : Packet) (e : E) (ts : List Tag) (rest : List ℕ)
    → is_sane p ≡ true
    → Writable ts
    → p.payload ≡ encode_tags ts rest
    → p.length ≡ length (encode_tags ts [])
    → parse_packet func p e ≡ some (true, foldl (visit func) e ts)
parse_packet-encode_tags func p e ts rest sane w q l =
    parse_packet-Reads func p e sane
      (omega (arith, ap (length {A = ℕ}) whole, length-append (encode_tags ts []) rest))
      (subst (λ b. Scan b ts true) (sym cut) (encode_tags-Scan w))
  where
    whole : p.payload ≡ encode_tags ts [] ++ rest
    whole = q ∙ encode_tags-append ts rest

    cut : take p.length p.payload ≡ encode_tags ts []
    cut = ap₂ take l whole ∙ take-append (encode_tags ts []) rest
