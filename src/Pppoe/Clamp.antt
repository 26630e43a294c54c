-- ===== src/Pppoe/Clamp.antt =====
-- rp-pppoe/src/common.c: `computeTCPChecksum` and `clampMSS`. Pointers into the packet are positions in its
-- payload; `none` is an access outside it, or out of fuel.
pub mod Sum
pub mod Carry
pub mod Checksum
pub mod Search
pub mod Options
pub mod Written
pub mod Outcome
pub mod Clamped
pub mod Outside
mod Tests
use zy_agf.Prelude.{
  ℕ, zero, suc, ◌+◌, ◌-◌, ◌*◌, ◌/◌, ◌%◌, ◌^◌, Bool, true, false, not, ◌&&◌, ◌||◌, Option, none,
  some, List, [], ◌∷◌, ◌==◌, ltb, leb, if◌then◌else◌, get_elem?, ◌>>=◌,
}

-- A write of one byte.
unfoldable pub set_at : List ℕ → ℕ → ℕ → Option (List ℕ)
set_at [] i v = none
set_at (x ∷ xs) zero v = some (v ∷ xs)
set_at (x ∷ xs) (suc i) v = set_at xs i v >>= λ ys. some (x ∷ ys)

-- Two bytes as the little-endian machine loads them.
unfoldable pub word_at : List ℕ → ℕ → Option ℕ
word_at b a = do lo ← get_elem? b a; hi ← get_elem? b (a + 1); some (lo + 256 * hi)

-- The loop over the segment, and the byte that is left over.
unfoldable pub sum_from : List ℕ → ℕ → ℕ → ℕ → Option ℕ
unfolding word_at
sum_from b addr zero sum = some sum
sum_from b addr (suc zero) sum = get_elem? b addr >>= λ c. some ((sum + c) % 2 ^ 32)
sum_from b addr (suc (suc count)) sum =
    word_at b addr >>= λ tmp. sum_from b (addr + 2) count ((sum + tmp) % 2 ^ 32)

-- `while (sum >> 16)`
unfoldable pub fold_carry : ℕ → ℕ → Option ℕ
fold_carry zero sum = none
fold_carry (suc fuel) sum =
    let rest = fold_carry fuel (sum % 65536 + sum / 65536) in
    if sum / 65536 == 0 then some sum else rest

-- The bytes of the segment, from the two lengths of the IP header.
unfoldable pub segment_length : List ℕ → ℕ → Option ℕ
segment_length b ip = do
  hi ← get_elem? b (ip + 2)
  lo ← get_elem? b (ip + 3)
  ihl ← get_elem? b ip
  some ((hi * 256 + lo + 65536 - ihl % 16 * 4) % 65536)

-- The pseudo header: the addresses, the protocol, and the length.
unfoldable pub pseudo_sum : List ℕ → ℕ → ℕ → Option ℕ
unfolding word_at
pseudo_sum b ip count = do
  w0 ← word_at b (ip + 12)
  w1 ← word_at b (ip + 14)
  w2 ← word_at b (ip + 16)
  w3 ← word_at b (ip + 18)
  proto ← get_elem? b (ip + 9)
  some (w0 + w1 + w2 + w3 + 256 * proto + (count / 256 + 256 * (count % 256)))

unfoldable pub compute_tcp_checksum : List ℕ → ℕ → ℕ → Option ℕ
unfolding segment_length pseudo_sum sum_from fold_carry
compute_tcp_checksum b ip tcp = do
  count ← segment_length b ip
  pseudo ← pseudo_sum b ip count
  sum ← sum_from b tcp count pseudo
  folded ← fold_carry 4 sum
  some (65535 - folded)

-- What the loop over the options finds.
pub data Mss : Type 0 where
  bogus absent : Mss
  at : ℕ → Mss

unfoldable pub find_mss : ℕ → List ℕ → ℕ → ℕ → Option Mss
find_mss zero b opt end = none
find_mss (suc fuel) b opt end =
    if not (ltb opt end)
    then some absent
    else get_elem? b opt >>= λ kind.
        if kind == 0
        then some absent
        else if kind == 1
        then find_mss fuel b (opt + 1) end
        else get_elem? b (opt + 1) >>= λ len.
            if kind == 2
            then (if len == 4 then some (at opt) else some bogus)
            else if ltb len 2
            then some bogus
            else find_mss fuel b (opt + len) end

-- The part behind the search: `clamp` is the value of `clampMss`.
unfoldable pub write_mss : ℕ → List ℕ → ℕ → ℕ → ℕ → Option (List ℕ)
write_mss clamp b ip tcp mssopt = do
  b1 ← set_at b (mssopt + 2) (clamp / 256 % 256)
  b2 ← set_at b1 (mssopt + 3) (clamp % 256)
  b3 ← set_at b2 (tcp + 16) 0
  b4 ← set_at b3 (tcp + 17) 0
  csum ← compute_tcp_checksum b4 ip tcp
  b5 ← set_at b4 (tcp + 16) (csum % 256)
  set_at b5 (tcp + 17) (csum / 256)

unfoldable pub rewrite_mss : ℕ → List ℕ → ℕ → ℕ → ℕ → Option (List ℕ)
rewrite_mss clamp b ip tcp mssopt = do
  hi ← get_elem? b (mssopt + 2)
  lo ← get_elem? b (mssopt + 3)
  (if leb (hi * 256 + lo) clamp then some b else write_mss clamp b ip tcp mssopt)

-- From the start of the TCP header on: SYN, checksum and options.
unfoldable pub clamp_tcp : ℕ → List ℕ → ℕ → ℕ → Option (List ℕ)
clamp_tcp clamp b ip tcp = get_elem? b (tcp + 13) >>= λ flags.
    if flags / 2 % 2 == 0
    then some b
    else compute_tcp_checksum b ip tcp >>= λ csum.
        if not (csum == 0)
        then some b
        else get_elem? b (tcp + 12) >>= λ offset.
            find_mss 41 b (tcp + 20) (tcp + offset / 16 * 4) >>= λ mss. elim mss [
              | bogus ↦ some b
              | absent ↦ some b
              | at mssopt ↦ rewrite_mss clamp b ip tcp mssopt
            ]

-- From the start of the IP header on: IPv4, first fragment, TCP.
unfoldable pub clamp_ip : ℕ → List ℕ → ℕ → Option (List ℕ)
clamp_ip clamp b ip = do
  version ← get_elem? b ip
  frag_hi ← get_elem? b (ip + 6)
  frag_lo ← get_elem? b (ip + 7)
  proto ← get_elem? b (ip + 9)
  (if not (version / 16 == 4)
      then some b
      else if not (frag_hi % 32 == 0 && frag_lo == 0)
      then some b
      else if not (proto == 6)
      then some b
      else clamp_tcp clamp b ip (ip + version % 16 * 4))

-- `clampMSS` on the payload and the length in the packet's header.
unfoldable pub clamp_mss : ℕ → List ℕ → ℕ → Option (List ℕ)
clamp_mss clamp b len = do
  p0 ← get_elem? b 0
  p1 ← get_elem? b 1
  (if p0 % 2 == 1
      then if not (p0 == 0x21) || ltb len 41 then some b else clamp_ip clamp b 1
      else if not (p0 == 0 && p1 == 0x21) || ltb len 42
      then some b
      else clamp_ip clamp b 2)
