-- ===== src/Xl2tpd/Hdlc.antt =====
-- xl2tpd/control.c and xl2tpd/call.c: the frames between the daemon and pppd. `write_packet` with its
-- conversion, and `read_packet`. A buffer is the list of its bytes from `start` on.
pub mod Chunks
pub mod RoundTrip
pub mod Fits
mod Tests
use zy_agf.Prelude.{
  ℕ, zero, suc, ◌+◌, ◌-◌, bit_xor, Bool, true, false, not, ◌||◌, Option, none, some, List, [], ◌∷◌,
  ◌++◌, ◌==◌, ltb, leb, if◌then◌else◌, length, take, drop,
}
use zy_agf.Fcs.{fcs_bytes, fcs_of, add_fcs}

abbrev pub ppp_flag : ℕ
ppp_flag = 0x7e

abbrev pub ppp_escape : ℕ
ppp_escape = 0x7d

abbrev pub ppp_trans : ℕ
ppp_trans = 0x20

abbrev pub max_recv_size : ℕ
max_recv_size = 4096

-- `sizeof (struct payload_hdr)`
abbrev pub payload_hdr_size : ℕ
payload_hdr_size = 14

abbrev pub escapes : ℕ → Bool
escapes e = ltb e 0x20 || e == ppp_escape || e == ppp_flag

-- The loop that fills `wbuf` from position `pos` on, with the flag at the end; `none` is -EINVAL.
unfoldable pub expand : ℕ → List ℕ → Option (List ℕ)
expand pos [] = some (ppp_flag ∷ [])
expand pos (e ∷ buf) =
    let escaped = expand (pos + 2) buf in
    let plain = expand (pos + 1) buf in
    if leb (max_recv_size - 4) pos
    then none
    else if escapes e
    then elim escaped [ none ↦ none | some rest ↦ some (ppp_escape ∷ bit_xor e ppp_trans ∷ rest) ]
    else elim plain [ none ↦ none | some rest ↦ some (e ∷ rest) ]

-- What `write_packet` with `convert` writes for a buffer whose payload header has the offset `o_size`.
unfoldable pub write_packet : ℕ → List ℕ → Option (List ℕ)
unfolding expand add_fcs
write_packet o_size buf = elim (expand 1 (add_fcs (drop (payload_hdr_size + o_size) buf))) [
  | none ↦ none
  | some rest ↦ some (ppp_flag ∷ rest)
]

-- What `read_packet` returns: the length of a packet, 0 where there is nothing to read, -EINVAL, or -errno.
pub data Outcome : Type 0 where
  packet nothing invalid dead : Outcome

-- `rbuf` from `rbuf_pos` to `rbuf_max`, and the bytes of `ppp_buf`.
pub record Line : Type 0 where
  pub rbuf : List ℕ
  pub buf : List ℕ

-- What a `read` of the terminal gives: bytes, none of them at the end of the file; EIO, EINTR or EAGAIN;
-- another error.
pub data Read : Type 0 where
  bytes : List ℕ → Read
  interrupted failed : Read

-- The loop over the bytes that are in `rbuf`: the call returns, or needs to read more.
pub data Progress : Type 0 where
  returned : Outcome → Line → Progress
  more : ℕ → List ℕ → Progress

unfoldable pub read_bytes : ℕ → ℕ → List ℕ → List ℕ → Progress
read_bytes maxlen escape buf [] = more escape buf
read_bytes maxlen escape buf (ch ∷ rbuf) =
    let skipped = read_bytes maxlen escape buf rbuf in
    let escaped = read_bytes maxlen ppp_trans buf rbuf in
    let stored = read_bytes maxlen 0 (buf ++ (bit_xor ch escape ∷ [])) rbuf in
    if ch == ppp_flag
    then if not (escape == 0)
      then returned invalid (record { rbuf = []; buf = buf })
      else if leb 2 (length buf)
      then returned packet (record { rbuf = rbuf; buf = take (length buf - 2) buf })
      else if length buf == 1
      then returned packet (record { rbuf = rbuf; buf = buf })
      else skipped
    else if ch == ppp_escape
    then escaped
    else if ltb (length buf) maxlen
    then stored
    else returned invalid (record { rbuf = []; buf = buf })

-- The result of a call, the buffers after it, and the reads that are left.
pub record PacketRead : Type 0 where
  pub outcome : Outcome
  pub line : Line
  pub reads : List Read

-- The rounds that read. Without a result of `read`, it is as if it would block.
unfoldable pub read_on : ℕ → List Read → ℕ → ℕ → List ℕ → PacketRead
unfolding read_bytes
read_on maxlen [] errors escape buf = record {
  outcome = nothing;
  line = record { rbuf = []; buf = buf };
  reads = [];
}
read_on maxlen (bytes [] ∷ reads) errors escape buf = record {
  outcome = nothing;
  line = record { rbuf = []; buf = buf };
  reads = reads;
}
read_on maxlen (interrupted ∷ reads) errors escape buf = record {
  outcome = nothing;
  line = record { rbuf = []; buf = buf };
  reads = reads;
}
read_on maxlen (failed ∷ reads) errors escape buf =
    let rest = read_on maxlen reads (errors + 1) escape buf in
    if ltb 10 (errors + 1)
    then record { outcome = dead; line = record { rbuf = []; buf = buf }; reads = reads }
    else rest
read_on maxlen (bytes (c ∷ cs) ∷ reads) errors escape buf =
    elim (read_bytes maxlen escape buf (c ∷ cs)) [
      | returned outcome line ↦ record { outcome = outcome; line = line; reads = reads }
      | more escape' buf' ↦ read_on maxlen reads errors escape' buf'
    ]

unfoldable pub read_packet : ℕ → List Read → Line → PacketRead
unfolding read_on read_bytes
read_packet maxlen reads line = elim (read_bytes maxlen 0 line.buf line.rbuf) [
  | returned outcome line' ↦ record { outcome = outcome; line = line'; reads = reads }
  | more escape buf ↦ read_on maxlen reads 0 escape buf
]
