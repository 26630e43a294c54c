-- ===== src/Pppoe/Clamp/Written.antt =====
-- The part of `clampMSS` that writes: the option, and a checksum that verifies.
use zy_agf.Prelude.{
  ℕ, ◌+◌, ◌*◌, ◌/◌, ◌%◌, ◌≤◌, some, List, get_elem?, >>=_some, ◌≡◌, ◌≢◌, refl, sym, ap, ◌∙◌, arith,
}
use zy_agf.Pppoe.Framing.RoundTrip.{Bytes}
use zy_agf.Pppoe.Clamp.{set_at, word_at, segment_length, compute_tcp_checksum, write_mss}
use zy_agf.Pppoe.Clamp.Sum.{get-set, get-set_other, Replaced}
use zy_agf.Pppoe.Clamp.Checksum.{segment_length-same, compute_tcp_checksum-Replaced}
use zy_agf.Pppoe.Clamp.Search.{Bytes-set_at}

-- A packet whose IP header is of 20 bytes at least, and whose segment holds the checksum field.
pub record IsWhole (b : List ℕ) (ip tcp : ℕ) : Type 0 where
  pub behind : ip + 20 ≤ tcp
  pub count : ℕ
  pub length_is : segment_length b ip ≡ some count
  pub enough : 18 ≤ count

-- What the clamping writes: the two bytes of the option, and a checksum that verifies.
pub record Clamped (clamp : ℕ) (b b' : List ℕ) (ip tcp mssopt : ℕ) : Type 0 where
  pub option : tcp + 20 ≤ mssopt
  pub mss_hi : get_elem? b' (mssopt + 2) ≡ some (clamp / 256 % 256)
  pub mss_lo : get_elem? b' (mssopt + 3) ≡ some (clamp % 256)
  pub verifies : compute_tcp_checksum b' ip tcp ≡ some 0
  pub same :
      (j : ℕ)
      → j ≢ mssopt + 2
      → j ≢ mssopt + 3
      → j ≢ tcp + 16
      → j ≢ tcp + 17
      → get_elem? b' j ≡ get_elem? b j

-- Two bytes written, and what else they leave.
word_at-set :
    (a c d : List ℕ) (i k lo hi : ℕ)
    → k ≡ i + 1
    → set_at a i lo ≡ some c
    → set_at c k hi ≡ some d
    → word_at d i ≡ some (lo + 256 * hi)
unfolding word_at
word_at-set a c d i k lo hi s e f =
    let first = get-set_other c k i hi d f (omega arith) ∙ get-set a i lo c e in
    rw (first, sym s, get-set c k hi d f) refl

get-set_two :
    (a c d : List ℕ) (i k lo hi : ℕ)
    → set_at a i lo ≡ some c
    → set_at c k hi ≡ some d
    → (j : ℕ) → j ≢ i
    → j ≢ k
    → get_elem? d j ≡ get_elem? a j
get-set_two a c d i k lo hi e f j x y = get-set_other c k j hi d f y ∙ get-set_other a i j lo c e x

-- The six writes, with the checksum computed after the fourth.
module _ (clamp : ℕ) (b b1 b2 b3 b4 b5 b' : List ℕ) (ip tcp mssopt csum : ℕ) (h : Bytes b)
    (w : IsWhole b ip tcp) (option : tcp + 20 ≤ mssopt)
    (q1 : set_at b (mssopt + 2) (clamp / 256 % 256) ≡ some b1)
    (q2 : set_at b1 (mssopt + 3) (clamp % 256) ≡ some b2) (q3 : set_at b2 (tcp + 16) 0 ≡ some b3)
    (q4 : set_at b3 (tcp + 17) 0 ≡ some b4) (q5 : compute_tcp_checksum b4 ip tcp ≡ some csum)
    (q6 : set_at b4 (tcp + 16) (csum % 256) ≡ some b5)
    (q7 : set_at b5 (tcp + 17) (csum / 256) ≡ some b') where
  zeroed-Bytes : Bytes b4
  zeroed-Bytes =
      let h1 = Bytes-set_at b (mssopt + 2) (clamp / 256 % 256) b1 h (omega arith) q1 in
      let h2 = Bytes-set_at b1 (mssopt + 3) (clamp % 256) b2 h1 (omega arith) q2 in
      let h3 = Bytes-set_at b2 (tcp + 16) 0 b3 h2 (omega arith) q3 in
      Bytes-set_at b3 (tcp + 17) 0 b4 h3 (omega arith) q4

  zeroed : (j : ℕ) → j ≢ tcp + 16 → j ≢ tcp + 17 → get_elem? b4 j ≡ get_elem? b2 j
  zeroed = get-set_two b2 b3 b4 (tcp + 16) (tcp + 17) 0 0 q3 q4

  filled : (j : ℕ) → j ≢ tcp + 16 → j ≢ tcp + 17 → get_elem? b' j ≡ get_elem? b4 j
  filled = get-set_two b4 b5 b' (tcp + 16) (tcp + 17) (csum % 256) (csum / 256) q6 q7

  unchanged :
      (j : ℕ)
      → j ≢ mssopt + 2
      → j ≢ mssopt + 3
      → j ≢ tcp + 16
      → j ≢ tcp + 17
      → get_elem? b4 j ≡ get_elem? b j
  unchanged j x y z t =
      zeroed j z t
      ∙ get-set_two b b1 b2 (mssopt + 2) (mssopt + 3) (clamp / 256 % 256) (clamp % 256) q1 q2 j x y

  field-Replaced : Replaced b4 b' (tcp + 16) csum
  field-Replaced = record {
    old = word_at-set b2 b3 b4 (tcp + 16) (tcp + 17) 0 0 (omega arith) q3 q4;
    new =
        word_at-set b4 b5 b' (tcp + 16) (tcp + 17) (csum % 256) (csum / 256) (omega arith) q6 q7
        ∙ ap (λ v. some v) (omega arith);
    same = λ j x y. filled j x (omega arith);
  }

  same_length : segment_length b4 ip ≡ some w.count
  same_length =
      let low = w.behind in
      segment_length-same b b4 ip
        (λ j l. unchanged j (omega arith) (omega arith) (omega arith) (omega arith))
      ∙ w.length_is

  writes-Clamped : Clamped clamp b b' ip tcp mssopt
  writes-Clamped = record {
    option = option;
    mss_hi =
        filled (mssopt + 2) (omega arith) (omega arith)
        ∙ zeroed (mssopt + 2) (omega arith) (omega arith)
        ∙ get-set_other b1 (mssopt + 3) (mssopt + 2) (clamp % 256) b2 q2 (omega arith)
        ∙ get-set b (mssopt + 2) (clamp / 256 % 256) b1 q1;
    mss_lo =
        filled (mssopt + 3) (omega arith) (omega arith)
        ∙ zeroed (mssopt + 3) (omega arith) (omega arith)
        ∙ get-set b1 (mssopt + 3) (clamp % 256) b2 q2;
    verifies =
        compute_tcp_checksum-Replaced b4 b' ip tcp csum w.count zeroed-Bytes q5 field-Replaced
          w.behind same_length w.enough;
    same = λ j x y z t. filled j z t ∙ unchanged j x y z t;
  }

pub write_mss-Clamped :
    (clamp : ℕ) (b b' : List ℕ) (ip tcp mssopt : ℕ)
    → Bytes b
    → IsWhole b ip tcp
    → tcp + 20 ≤ mssopt
    → write_mss clamp b ip tcp mssopt ≡ some b'
    → Clamped clamp b b' ip tcp mssopt
unfolding write_mss
write_mss-Clamped clamp b b' ip tcp mssopt h w option e =
    let (b1, q1, e1) = >>=_some (set_at b (mssopt + 2) (clamp / 256 % 256)) _ e in
    let (b2, q2, e2) = >>=_some (set_at b1 (mssopt + 3) (clamp % 256)) _ e1 in
    let (b3, q3, e3) = >>=_some (set_at b2 (tcp + 16) 0) _ e2 in
    let (b4, q4, e4) = >>=_some (set_at b3 (tcp + 17) 0) _ e3 in
    let (csum, q5, e5) = >>=_some (compute_tcp_checksum b4 ip tcp) _ e4 in
    let (b5, q6, q7) = >>=_some (set_at b4 (tcp + 16) (csum % 256)) _ e5 in
    writes-Clamped clamp b b1 b2 b3 b4 b5 b' ip tcp mssopt csum h w option q1 q2 q3 q4 q5 q6 q7
