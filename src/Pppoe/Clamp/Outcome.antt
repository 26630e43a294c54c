-- ===== src/Pppoe/Clamp/Outcome.antt =====
-- rp-pppoe/src/common.c: what may come of a packet in `clampMSS`.
use zy_agf.Prelude.{◌<◌, ◌≢◌, ◌⊎◌, ℕ, ◌+◌, ◌*◌, ◌/◌, ◌%◌, ◌≤◌, some, List, get_elem?, ◌≡◌}
use zy_agf.Pppoe.Clamp.{compute_tcp_checksum, Mss, bogus, absent, at}
use zy_agf.Pppoe.Clamp.Options.{Options}
use zy_agf.Pppoe.Clamp.Written.{Clamped}

-- The payload is IPv4 by its protocol field, whose first bytes are `p0` and `p1`, and long enough for a
-- TCP segment.
abbrev pub IsIp : ℕ → ℕ → ℕ → Type 0
IsIp p0 p1 len = ((p0 ≡ 0x21) × (41 ≤ len)) ⊎ ((p0 ≡ 0) × (p1 ≡ 0x21) × (42 ≤ len))

-- Why a packet is left alone.
pub data LeftAlone (clamp : ℕ) (b : List ℕ) (len p0 p1 ip tcp : ℕ) : Type 0 where
  not_ip : ¬ IsIp p0 p1 len → LeftAlone clamp b len p0 p1 ip tcp
  not_v4 : (v : ℕ) → get_elem? b ip ≡ some v → v / 16 ≢ 4 → LeftAlone clamp b len p0 p1 ip tcp
  fragment :
      (hi lo : ℕ)
      → get_elem? b (ip + 6) ≡ some hi
      → get_elem? b (ip + 7) ≡ some lo
      → hi % 32 * 256 + lo ≢ 0
      → LeftAlone clamp b len p0 p1 ip tcp
  not_tcp :
      (proto : ℕ)
      → get_elem? b (ip + 9) ≡ some proto
      → proto ≢ 6
      → LeftAlone clamp b len p0 p1 ip tcp
  no_syn :
      (flags : ℕ)
      → get_elem? b (tcp + 13) ≡ some flags
      → flags / 2 % 2 ≡ 0
      → LeftAlone clamp b len p0 p1 ip tcp
  bad_checksum :
      (sum : ℕ)
      → compute_tcp_checksum b ip tcp ≡ some sum
      → sum ≢ 0
      → LeftAlone clamp b len p0 p1 ip tcp
  no_option :
      (offset : ℕ) (m : Mss)
      → get_elem? b (tcp + 12) ≡ some offset
      → Options b (tcp + offset / 16 * 4) (tcp + 20) m
      → (m ≡ bogus) ⊎ (m ≡ absent)
      → LeftAlone clamp b len p0 p1 ip tcp
  small_enough :
      (offset mssopt hi lo : ℕ)
      → get_elem? b (tcp + 12) ≡ some offset
      → Options b (tcp + offset / 16 * 4) (tcp + 20) (at mssopt)
      → get_elem? b (mssopt + 2) ≡ some hi
      → get_elem? b (mssopt + 3) ≡ some lo
      → hi * 256 + lo ≤ clamp
      → LeftAlone clamp b len p0 p1 ip tcp

-- The IP header of a first fragment with a TCP segment.
pub record IsTcp (b : List ℕ) (len p0 p1 ip : ℕ) : Type 0 where
  pub is_ip : IsIp p0 p1 len
  pub v : ℕ
  pub version : get_elem? b ip ≡ some v
  pub four : v / 16 ≡ 4
  pub hi : ℕ
  pub lo : ℕ
  pub flags : get_elem? b (ip + 6) ≡ some hi
  pub offset : get_elem? b (ip + 7) ≡ some lo
  pub first : hi % 32 * 256 + lo ≡ 0
  pub protocol : get_elem? b (ip + 9) ≡ some 6

-- A SYN with a good checksum and an MSS option at `mssopt`, whose value is above `clamp`.
pub record IsLarge (clamp : ℕ) (b : List ℕ) (ip tcp mssopt : ℕ) : Type 0 where
  pub flags : ℕ
  pub flags_at : get_elem? b (tcp + 13) ≡ some flags
  pub syn : flags / 2 % 2 ≡ 1
  pub good : compute_tcp_checksum b ip tcp ≡ some 0
  pub offset : ℕ
  pub offset_at : get_elem? b (tcp + 12) ≡ some offset
  pub option : Options b (tcp + offset / 16 * 4) (tcp + 20) (at mssopt)
  pub hi : ℕ
  pub lo : ℕ
  pub hi_at : get_elem? b (mssopt + 2) ≡ some hi
  pub lo_at : get_elem? b (mssopt + 3) ≡ some lo
  pub larger : clamp < hi * 256 + lo

-- What comes of a packet: it is left alone for a reason, or its MSS option was too large and is clamped.
pub data Result (clamp : ℕ) (b : List ℕ) (len p0 p1 ip tcp : ℕ) : List ℕ → Type 0 where
  kept : LeftAlone clamp b len p0 p1 ip tcp → Result clamp b len p0 p1 ip tcp b
  clamped :
      {b' : List ℕ} (mssopt : ℕ)
      → IsTcp b len p0 p1 ip
      → IsLarge clamp b ip tcp mssopt
      → Clamped clamp b b' ip tcp mssopt
      → Result clamp b len p0 p1 ip tcp b'
