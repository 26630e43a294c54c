-- ===== src/Xl2tpd/Hdlc/Chunks.antt =====
-- How the bytes of a frame may be cut into reads.
use zy_agf.Prelude.{
  ℕ, ◌<◌, holds_below, holds_below_lem, ==_iff, bit_xor, true, false, List, [], ◌∷◌, ◌++◌, ◌==◌,
  length, ◌≡◌, refl, ap, ◌∙◌, arith,
}
use zy_agf.Xl2tpd.Hdlc.RoundTrip.{read_bytes-stored}
use zy_agf.Xl2tpd.Hdlc.{
  ppp_flag, ppp_escape, ppp_trans, packet, nothing, invalid, dead, Read, bytes, interrupted,
  Progress, returned, more, read_bytes, read_on, read_packet,
}

-- The rounds over more bytes, from where others ended.
abbrev continue : ℕ → List ℕ → Progress → Progress
continue maxlen ys (returned outcome line) = returned outcome line
continue maxlen ys (more escape buf) = read_bytes maxlen escape buf ys

-- The line with bytes behind those unread.
abbrev behind : List ℕ → Progress → Progress
behind ys (returned packet line) = returned packet (record line { rbuf = line.rbuf ++ ys })
behind ys (returned nothing line) = returned nothing line
behind ys (returned invalid line) = returned invalid line
behind ys (returned dead line) = returned dead line
behind ys (more escape buf) = more escape buf

-- Bytes that are read in two parts within one call are read as in one.
pub read_bytes-append :
    (maxlen escape : ℕ) (buf xs ys : List ℕ)
    → read_bytes maxlen escape buf (xs ++ ys)
      ≡ continue maxlen ys (behind ys (read_bytes maxlen escape buf xs))
unfolding read_bytes
read_bytes-append maxlen escape buf [] ys = refl
read_bytes-append maxlen escape buf (c ∷ xs) ys =
    let skipped = read_bytes-append maxlen escape buf xs ys in
    let escaped = read_bytes-append maxlen ppp_trans buf xs ys in
    let stored = read_bytes-append maxlen 0 (buf ++ (bit_xor c escape ∷ [])) xs ys in
    ground (arith, skipped, escaped, stored)

-- Where the bytes in `rbuf` do not end the call, the next read continues it: it is as if its bytes had stood in
-- `rbuf` behind them.
pub read_packet-append :
    (maxlen escape : ℕ) (buf buf' xs : List ℕ) (y : ℕ) (ys : List ℕ) (reads : List Read)
    → read_bytes maxlen 0 buf xs ≡ more escape buf'
    → read_packet maxlen (bytes (y ∷ ys) ∷ reads) (record { rbuf = xs; buf = buf })
      ≡ read_packet maxlen reads (record { rbuf = xs ++ (y ∷ ys); buf = buf })
unfolding read_packet read_on
read_packet-append maxlen escape buf buf' xs y ys reads e =
    let whole : read_bytes maxlen 0 buf (xs ++ (y ∷ ys)) ≡ read_bytes maxlen escape buf' (y ∷ ys) =
      read_bytes-append maxlen 0 buf xs (y ∷ ys)
      ∙ ap (λ p. continue maxlen (y ∷ ys) (behind (y ∷ ys) p)) e in
    rw (read_packet, e, whole) refl

xor_table : holds_below 256 (λ c. bit_xor c 0 == c) ≡ true
unfolding holds_below
xor_table = refl

-- `read_packet` forgets an escape sign that is the last byte read before the terminal has no more: it returns
-- 0, and the next call stores the byte after the sign as it is, not escaped.
pub read_packet_forgets :
    (maxlen : ℕ) (buf : List ℕ) (c : ℕ) (rest : List ℕ) (reads : List Read)
    → length buf < maxlen
    → c < 256
    → (c == ppp_flag) ≡ false
    → (c == ppp_escape) ≡ false
    → (read_packet maxlen (interrupted ∷ reads) (record { rbuf = ppp_escape ∷ []; buf = buf })
        ≡ record { outcome = nothing; line = record { rbuf = []; buf = buf }; reads = reads })
      × (read_packet maxlen (bytes (c ∷ rest) ∷ reads) (record { rbuf = []; buf = buf })
          ≡ read_packet maxlen reads (record { rbuf = rest; buf = buf ++ (c ∷ []) }))
unfolding read_packet read_on read_bytes
read_packet_forgets maxlen buf c rest reads k small f e =
    let same : bit_xor c 0 ≡ c =
      (==_iff (bit_xor c 0) c).0 (holds_below_lem 256 (λ c. bit_xor c 0 == c) c xor_table small) in
    let stored = read_bytes-stored maxlen 0 c c buf rest e f same k in
    (refl, read_packet-append maxlen 0 buf buf [] c rest reads refl ∙ rw (read_packet, stored) refl)
