-- ===== src/Pppoe/Clamp/Clamped.antt =====
-- What `clampMSS` does to a packet, on every branch.
use zy_agf.Prelude.{
  ◌<◌, ◌≢◌, inl, inr, arith, some_inj, leb→le, ==_iff, refl, ap, ℕ, ◌+◌, ◌*◌, ◌/◌, ◌%◌, ◌≤◌, Bool,
  true, false, not, ◌&&◌, ◌||◌, Option, some, List, ◌==◌, ltb, leb, if◌then◌else◌, get_elem?,
  >>=_some, ◌≡◌, sym, subst, ◌∙◌,
}
use zy_agf.Pppoe.Framing.RoundTrip.{Bytes}
use zy_agf.Pppoe.Clamp.{
  compute_tcp_checksum, Mss, bogus, absent, at, find_mss, rewrite_mss, clamp_tcp, clamp_ip,
  clamp_mss,
}
use zy_agf.Pppoe.Clamp.Search.{find_mss_from}
use zy_agf.Pppoe.Clamp.Options.{Options, find_mss-Options}
use zy_agf.Pppoe.Clamp.Written.{IsWhole, write_mss-Clamped}
use zy_agf.Pppoe.Clamp.Outcome.{
  IsIp, LeftAlone, not_ip, not_v4, fragment, not_tcp, no_syn, bad_checksum, no_option, small_enough,
  IsTcp, Result, kept, clamped,
}

module _ (clamp : ℕ) (b b' : List ℕ) (len p0 p1 ip tcp : ℕ) where
  kept-Result :
      LeftAlone clamp b len p0 p1 ip tcp → some b ≡ some b' → Result clamp b len p0 p1 ip tcp b'
  kept-Result why e =
      let q : b ≡ b' = some_inj e in subst (λ x. Result clamp b len p0 p1 ip tcp x) q (kept why)

  -- A packet that is left alone where a test holds.
  kept_or :
      (c : Bool) (o : Option (List ℕ))
      → (c ≡ true → LeftAlone clamp b len p0 p1 ip tcp)
      → (c ≡ false → o ≡ some b' → Result clamp b len p0 p1 ip tcp b')
      → (if c then some b else o) ≡ some b'
      → Result clamp b len p0 p1 ip tcp b'
  kept_or true o why k e = kept-Result (why refl) e
  kept_or false o why k e = k refl e

  module _ (h : Bytes b) (w : IsWhole b ip tcp) (is_tcp : IsTcp b len p0 p1 ip) where
    -- The part behind the search, for an option that stands where options stand.
    found-Result :
        (flags offset mssopt : ℕ)
        → get_elem? b (tcp + 13) ≡ some flags
        → flags / 2 % 2 ≡ 1
        → compute_tcp_checksum b ip tcp ≡ some 0
        → get_elem? b (tcp + 12) ≡ some offset
        → Options b (tcp + offset / 16 * 4) (tcp + 20) (at mssopt)
        → tcp + 20 ≤ mssopt
        → rewrite_mss clamp b ip tcp mssopt ≡ some b'
        → Result clamp b len p0 p1 ip tcp b'
    unfolding rewrite_mss
    found-Result flags offset mssopt fq syn good oq option behind e =
        let (hi, q0, e0) = >>=_some (get_elem? b (mssopt + 2)) _ e in
        let (lo, q1, e1) = >>=_some (get_elem? b (mssopt + 3)) _ e0 in
        kept_or (leb (hi * 256 + lo) clamp) _
          (λ c. small_enough offset mssopt hi lo oq option q0 q1 (leb→le (hi * 256 + lo) clamp c))
          (λ c e2.
            clamped mssopt is_tcp
              (record {
                flags = flags;
                flags_at = fq;
                syn = syn;
                good = good;
                offset = offset;
                offset_at = oq;
                option = option;
                hi = hi;
                lo = lo;
                hi_at = q0;
                lo_at = q1;
                larger = above (hi * 256 + lo) c;
              })
              (write_mss-Clamped clamp b b' ip tcp mssopt h w behind e2))
          e1
      where
        above : (n : ℕ) → leb n clamp ≡ false → clamp < n
        above n c = ground arith

    searched-Result :
        (flags offset : ℕ) (m : Mss)
        → get_elem? b (tcp + 13) ≡ some flags
        → flags / 2 % 2 ≡ 1
        → compute_tcp_checksum b ip tcp ≡ some 0
        → get_elem? b (tcp + 12) ≡ some offset
        → find_mss 41 b (tcp + 20) (tcp + offset / 16 * 4) ≡ some m
        → elim m [
          | bogus ↦ some b
          | absent ↦ some b
          | at mssopt ↦ rewrite_mss clamp b ip tcp mssopt
        ]
          ≡ some b'
        → Result clamp b len p0 p1 ip tcp b'
    searched-Result flags offset bogus fq syn good oq f e =
        kept-Result
          (no_option offset bogus oq (find_mss-Options 41 b (tcp + 20) _ bogus f) (inl refl)) e
    searched-Result flags offset absent fq syn good oq f e =
        kept-Result
          (no_option offset absent oq (find_mss-Options 41 b (tcp + 20) _ absent f) (inr refl)) e
    searched-Result flags offset (at mssopt) fq syn good oq f e =
        found-Result flags offset mssopt fq syn good oq
          (find_mss-Options 41 b (tcp + 20) _ (at mssopt) f)
          (find_mss_from 41 b (tcp + 20) _ mssopt f) e

    clamp_tcp-Result : clamp_tcp clamp b ip tcp ≡ some b' → Result clamp b len p0 p1 ip tcp b'
    unfolding clamp_tcp
    clamp_tcp-Result e =
        let (flags, q0, e0) = >>=_some (get_elem? b (tcp + 13)) _ e in
        kept_or (flags / 2 % 2 == 0) _ (λ c. no_syn flags q0 ((==_iff (flags / 2 % 2) 0).0 c))
          (λ c e1.
            let (csum, q1, e2) = >>=_some (compute_tcp_checksum b ip tcp) _ e1 in
            kept_or (not (csum == 0)) _ (λ c1. bad_checksum csum q1 (nonzero csum c1))
              (λ c1 e3.
                let (offset, q2, e4) = >>=_some (get_elem? b (tcp + 12)) _ e3 in
                let (m, q3, e5) =
                  >>=_some (find_mss 41 b (tcp + 20) (tcp + offset / 16 * 4)) _ e4 in
                searched-Result flags offset m q0 (is_set flags c) (q1 ∙ ap some (is_zero csum c1))
                  q2 q3 e5)
              e2)
          e0
      where
        nonzero : (n : ℕ) → not (n == 0) ≡ true → n ≢ 0
        nonzero n c = ground arith

        is_zero : (n : ℕ) → not (n == 0) ≡ false → n ≡ 0
        is_zero n c = ground arith

        is_set : (n : ℕ) → (n / 2 % 2 == 0) ≡ false → n / 2 % 2 ≡ 1
        is_set n c = ground arith

clamp_ip-Result :
    (clamp : ℕ) (b b' : List ℕ) (len p0 p1 ip version : ℕ)
    → Bytes b
    → IsIp p0 p1 len
    → get_elem? b ip ≡ some version
    → IsWhole b ip (ip + version % 16 * 4)
    → clamp_ip clamp b ip ≡ some b'
    → Result clamp b len p0 p1 ip (ip + version % 16 * 4) b'
unfolding clamp_ip
clamp_ip-Result clamp b b' len p0 p1 ip version h is_ip at_ip w e =
    let tcp = ip + version % 16 * 4 in
    let (v, q0, e0) = >>=_some (get_elem? b ip) _ e in
    let (hi, q1, e1) = >>=_some (get_elem? b (ip + 6)) _ e0 in
    let (lo, q2, e2) = >>=_some (get_elem? b (ip + 7)) _ e1 in
    let (proto, q3, e3) = >>=_some (get_elem? b (ip + 9)) _ e2 in
    let same : v ≡ version = some_inj (sym q0 ∙ at_ip) in
    kept_or clamp b b' len p0 p1 ip tcp (not (v / 16 == 4)) _
      (λ c. not_v4 v q0 (differs (v / 16) 4 c))
      (λ c e4.
        kept_or clamp b b' len p0 p1 ip tcp (not (hi % 32 == 0 && lo == 0)) _
          (λ c1. fragment hi lo q1 q2 (later hi lo c1))
          (λ c1 e5.
            kept_or clamp b b' len p0 p1 ip tcp (not (proto == 6)) _
              (λ c2. not_tcp proto q3 (differs proto 6 c2))
              (λ c2 e6.
                clamp_tcp-Result clamp b b' len p0 p1 ip tcp h w
                  (record {
                    is_ip = is_ip;
                    v = v;
                    version = q0;
                    four = equals (v / 16) 4 c;
                    hi = hi;
                    lo = lo;
                    flags = q1;
                    offset = q2;
                    first = whole hi lo c1;
                    protocol = q3 ∙ ap some (equals proto 6 c2);
                  })
                  (subst (λ x. clamp_tcp clamp b ip (ip + x % 16 * 4) ≡ some b') same e6))
              e5)
          e4)
      e3
  where
    differs : (m n : ℕ) → not (m == n) ≡ true → m ≢ n
    differs m n c = ground arith

    equals : (m n : ℕ) → not (m == n) ≡ false → m ≡ n
    equals m n c = ground arith

    later : (hi lo : ℕ) → not (hi % 32 == 0 && lo == 0) ≡ true → hi % 32 * 256 + lo ≢ 0
    later hi lo c = ground arith

    whole : (hi lo : ℕ) → not (hi % 32 == 0 && lo == 0) ≡ false → hi % 32 * 256 + lo ≡ 0
    whole hi lo c = ground arith

-- Where the IP header starts, by the first byte of the protocol field.
abbrev pub ip_start : ℕ → ℕ
ip_start p0 = if p0 % 2 == 1 then 1 else 2

started-Result :
    (clamp : ℕ) (b b' : List ℕ) (len p0 p1 version : ℕ) (odd : Bool)
    → (p0 % 2 == 1) ≡ odd
    → Bytes b
    → get_elem? b (if odd then 1 else 2) ≡ some version
    → IsWhole b (if odd then 1 else 2) ((if odd then 1 else 2) + version % 16 * 4)
    → (if odd
        then if not (p0 == 0x21) || ltb len 41 then some b else clamp_ip clamp b 1
        else if not (p0 == 0 && p1 == 0x21) || ltb len 42
        then some b
        else clamp_ip clamp b 2)
      ≡ some b'
    → Result clamp b len p0 p1 (if odd then 1 else 2) ((if odd then 1 else 2) + version % 16 * 4) b'
started-Result clamp b b' len p0 p1 version true o h at_ip w e =
    kept_or clamp b b' len p0 p1 1 (1 + version % 16 * 4) (not (p0 == 0x21) || ltb len 41) _
      (λ c. not_ip (no_short c))
      (λ c. clamp_ip-Result clamp b b' len p0 p1 1 version h (short c) at_ip w) e
  where
    no_short : (not (p0 == 0x21) || ltb len 41) ≡ true → ¬ IsIp p0 p1 len
    no_short c = ground arith

    short : (not (p0 == 0x21) || ltb len 41) ≡ false → IsIp p0 p1 len
    short c = ground arith
started-Result clamp b b' len p0 p1 version false o h at_ip w e =
    kept_or clamp b b' len p0 p1 2 (2 + version % 16 * 4)
      (not (p0 == 0 && p1 == 0x21) || ltb len 42) _ (λ c. not_ip (no_long c))
      (λ c. clamp_ip-Result clamp b b' len p0 p1 2 version h (long c) at_ip w) e
  where
    no_long : (not (p0 == 0 && p1 == 0x21) || ltb len 42) ≡ true → ¬ IsIp p0 p1 len
    no_long c = ground arith

    long : (not (p0 == 0 && p1 == 0x21) || ltb len 42) ≡ false → IsIp p0 p1 len
    long c = ground arith

-- Where `clampMSS` returns, for a packet of bytes whose IP header is of 20 bytes at least and whose segment
-- holds the checksum field. Either the packet is as it was, for one of these reasons: it is not IPv4 by its
-- protocol field or too short, not of version 4, a later fragment, not TCP, not a SYN, its checksum does
-- not verify, its options hold no MSS option before they end or go wrong, or its MSS is at most the clamp. Or
-- it is a SYN in a first fragment with a checksum that verifies and an MSS option above the clamp; then the
-- two bytes of that option's value are the clamp, the TCP checksum verifies, and nothing but the value and
-- the checksum has changed.
pub clamp_mss-Result :
    (clamp : ℕ) (b b' : List ℕ) (len p0 p1 version : ℕ)
    → Bytes b
    → get_elem? b 0 ≡ some p0
    → get_elem? b 1 ≡ some p1
    → get_elem? b (ip_start p0) ≡ some version
    → IsWhole b (ip_start p0) (ip_start p0 + version % 16 * 4)
    → clamp_mss clamp b len ≡ some b'
    → Result clamp b len p0 p1 (ip_start p0) (ip_start p0 + version % 16 * 4) b'
unfolding clamp_mss
clamp_mss-Result clamp b b' len p0 p1 version h first second at_ip w e =
    let (x, q0, e0) = >>=_some (get_elem? b 0) _ e in
    let (y, q1, e1) = >>=_some (get_elem? b 1) _ e0 in
    let same : x ≡ p0 = some_inj (sym q0 ∙ first) in
    let same1 : y ≡ p1 = some_inj (sym q1 ∙ second) in
    started-Result clamp b b' len p0 p1 version (p0 % 2 == 1) refl h at_ip w
      (subst (λ z. body p0 z ≡ some b') same1 (subst (λ z. body z y ≡ some b') same e1))
  where
    body : ℕ → ℕ → Option (List ℕ)
    body p q =
        if p % 2 == 1
        then if not (p == 0x21) || ltb len 41 then some b else clamp_ip clamp b 1
        else if not (p == 0 && q == 0x21) || ltb len 42
        then some b
        else clamp_ip clamp b 2
