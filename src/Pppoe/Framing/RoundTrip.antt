-- ===== src/Pppoe/Framing/RoundTrip.antt =====
-- A frame that `asyncReadFromEth` builds is taken apart by `asyncReadFromPPP`.
use zy_agf.Prelude.{
  ℕ, ◌+◌, ◌-◌, ◌≤◌, ◌<◌, ◌%◌, ◌/◌, bit_xor, Bool, true, false, ◌&&◌, not, List, [], ◌∷◌, ◌++◌, ◌==◌,
  if◌then◌else◌, length, ◌≡◌, refl, ◌∙◌, arith, Bool-cases, inl, inr, append_assoc, length-append,
  holds_below, holds_below_lem, lt→leb, append-nil, take-append, le→ltb,
}
use zy_agf.Fcs.{ppp_fcs16, fcs_bytes}
use zy_agf.Pppoe.Framing.{
  building_packet, frame_esc, frame_flag, frame_addr, frame_ctrl, frame_enc, max_frame,
  async_read_from_ppp, is_special, stuff, encode_frame,
}
use zy_agf.Pppoe.Framing.Feed.{feed, async_read_from_ppp-feed, at, reset}

abbrev pub Bytes : List ℕ → Type 0
Bytes [] = Unit
Bytes (c ∷ cs) = (c < 256) × Bytes cs

-- An escaped byte is none of the special ones, and escaping it again gives it back; checked for all.
escape_test : ℕ → Bool
escape_test c =
    if is_special c
    then not (bit_xor c frame_enc == frame_esc)
      && not (bit_xor c frame_enc == frame_flag)
      && bit_xor (bit_xor c frame_enc) frame_enc == c
    else not (c == frame_esc) && not (c == frame_flag) && bit_xor c 0 == c

escape_table : holds_below 256 escape_test ≡ true
unfolding holds_below escape_test is_special
escape_table = refl

escape_byte : (c : ℕ) → c < 256 → escape_test c ≡ true
escape_byte c h = holds_below_lem 256 escape_test c escape_table h

-- A byte that is neither special sign nor too much is stored.
feed-stored :
    (b rest : List ℕ) (x c d : ℕ)
    → (c == frame_esc) ≡ false
    → (c == frame_flag) ≡ false
    → bit_xor c x ≡ d
    → length b < max_frame
    → feed (at building_packet b x) (c ∷ rest) ≡ feed (at building_packet (b ++ (d ∷ [])) 0) rest
unfolding feed
feed-stored b rest x c d e f g k = rw (e, f, lt→leb max_frame (length b) k, g)

feed-escaped :
    (b rest : List ℕ) (x : ℕ)
    → feed (at building_packet b x) (frame_esc ∷ rest) ≡ feed (at building_packet b frame_enc) rest
unfolding feed
feed-escaped b rest x = refl

escape_special :
    (c : ℕ)
    → c < 256
    → is_special c ≡ true
    → ((bit_xor c frame_enc == frame_esc) ≡ false)
      × ((bit_xor c frame_enc == frame_flag) ≡ false)
      × (bit_xor (bit_xor c frame_enc) frame_enc ≡ c)
escape_special c h e = let t = escape_byte c h in unfold escape_test in ground (arith, t)

escape_plain :
    (c : ℕ)
    → c < 256
    → is_special c ≡ false
    → ((c == frame_esc) ≡ false) × ((c == frame_flag) ≡ false) × (bit_xor c 0 ≡ c)
escape_plain c h e = let t = escape_byte c h in unfold escape_test in ground (arith, t)

stuff_special :
    (c : ℕ) (bytes : List ℕ)
    → is_special c ≡ true
    → stuff (c ∷ bytes) ≡ frame_esc ∷ bit_xor c frame_enc ∷ stuff bytes
unfolding stuff
stuff_special c bytes e = rw e

stuff_plain : (c : ℕ) (bytes : List ℕ) → is_special c ≡ false → stuff (c ∷ bytes) ≡ c ∷ stuff bytes
unfolding stuff
stuff_plain c bytes e = rw e

stuff-nil : stuff [] ≡ []
unfolding stuff
stuff-nil = refl

-- The stuffed bytes of a packet add those bytes.
feed-stuff :
    (b bytes rest : List ℕ)
    → Bytes bytes
    → length b + length bytes ≤ max_frame
    → feed (at building_packet b 0) (stuff bytes ++ rest)
      ≡ feed (at building_packet (b ++ bytes) 0) rest
feed-stuff b [] rest h k = rw (stuff-nil, append-nil)
feed-stuff b (c ∷ bytes) rest h k =
    let later : feed (at building_packet (b ++ (c ∷ [])) 0) (stuff bytes ++ rest)
        ≡ feed (at building_packet (b ++ (c ∷ bytes)) 0) rest =
      feed-stuff (b ++ (c ∷ [])) bytes rest h.1 (omega (arith, length-append b (c ∷ [])))
      ∙ rw (append_assoc b (c ∷ []) bytes) in
    elim (Bool-cases (is_special c)) [
      | inl e ↦
          let t = escape_special c h.0 e in
          rw (stuff_special c bytes e) (
            feed-escaped b (bit_xor c frame_enc ∷ (stuff bytes ++ rest)) 0
            ∙ feed-stored b (stuff bytes ++ rest) frame_enc (bit_xor c frame_enc) c t.0 t.1 t.2
                (omega arith)
            ∙ later)
      | inr e ↦
          let t = escape_plain c h.0 e in
          rw (stuff_plain c bytes e)
            (feed-stored b (stuff bytes ++ rest) 0 c c t.0 t.1 t.2 (omega arith) ∙ later)
    ]

-- The flag at the end sends the packet without its last two bytes.
feed-flag :
    (p : List ℕ) (x y : ℕ)
    → feed (at building_packet (p ++ (x ∷ y ∷ [])) 0) (frame_flag ∷ []) ≡ (reset, p ∷ [])
unfolding feed
feed-flag p x y =
    let size = length-append p (x ∷ y ∷ []) in
    rw (
      le→ltb (length (p ++ (x ∷ y ∷ []))) 2 (omega (arith, size)),
      minus_two (length (p ++ (x ∷ y ∷ []))) size,
      take-append p (x ∷ y ∷ []),
    )
  where
    minus_two : (n : ℕ) → n ≡ length p + 2 → n - 2 ≡ length p
    minus_two n e = omega arith

pub fcs_bytes-Bytes : (f : ℕ) → Bytes (fcs_bytes f)
fcs_bytes-Bytes f = omega arith

pub Bytes-append : (xs ys : List ℕ) → Bytes xs → Bytes ys → Bytes (xs ++ ys)
Bytes-append [] ys h k = k
Bytes-append (x ∷ xs) ys h k = (h.0, Bytes-append xs ys h.1 k)

feed-head :
    (rest : List ℕ)
    → feed reset (frame_flag ∷ frame_addr ∷ frame_esc ∷ bit_xor frame_ctrl frame_enc ∷ rest)
      ≡ feed (at building_packet [] 0) rest
unfolding feed
feed-head rest = refl

-- A packet of at most 1502 bytes, encoded as a frame and read from the initial state, comes out as the one
-- packet that is sent, without its check sequence, and the state is the initial one again.
pub async_read-encode_frame :
    (payload : List ℕ)
    → Bytes payload
    → length payload ≤ 1502
    → async_read_from_ppp reset (encode_frame payload) ≡ (reset, payload ∷ [])
unfolding encode_frame
async_read-encode_frame payload h k =
    let fcs = ppp_fcs16 (ppp_fcs16 0xffff (frame_addr ∷ frame_ctrl ∷ [])) payload in
    let bytes = payload ++ fcs_bytes fcs in
    async_read_from_ppp-feed reset (encode_frame payload)
    ∙ feed-head (stuff bytes ++ (frame_flag ∷ []))
    ∙ feed-stuff [] bytes (frame_flag ∷ [])
        (Bytes-append payload (fcs_bytes fcs) h (fcs_bytes-Bytes fcs))
        (omega (arith, length-append payload (fcs_bytes fcs)))
    ∙ feed-flag payload (bit_xor fcs 0xffff % 256) (bit_xor fcs 0xffff / 256 % 256)
