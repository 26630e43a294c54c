-- ===== src/Pppoe/Clamp/Checksum.antt =====
-- A segment whose checksum field is filled with `computeTCPChecksum` over the field at 0 verifies.
use zy_agf.Prelude.{
  some_inj, ℕ, ◌+◌, ◌-◌, ◌*◌, ◌/◌, ◌%◌, ◌^◌, ◌≤◌, ◌<◌, Option, none, some, List, get_elem?, ◌>>=◌,
  >>=_some, ◌≡◌, refl, sym, ap, ◌∙◌, arith,
}
use zy_agf.Pppoe.Framing.RoundTrip.{Bytes}
use zy_agf.Pppoe.Clamp.{
  word_at, sum_from, fold_carry, segment_length, pseudo_sum, compute_tcp_checksum,
}
use zy_agf.Pppoe.Clamp.Carry.{fold_carry_complement}
use zy_agf.Pppoe.Clamp.Sum.{
  total, sum_from-total, Replaced, word_at-same, total-Replaced, word_bound, byte_bound,
  total_bound,
}

-- The parts of a computed checksum.
pub record Computed (b : List ℕ) (ip tcp csum : ℕ) : Type 0 where
  pub count : ℕ
  pub pseudo : ℕ
  pub segment : ℕ
  pub folded : ℕ
  pub length_is : segment_length b ip ≡ some count
  pub pseudo_is : pseudo_sum b ip count ≡ some pseudo
  pub segment_is : total b tcp count ≡ some segment
  pub folded_is : fold_carry 4 (pseudo + segment) ≡ some folded
  pub csum_is : 65535 - folded ≡ csum
  pub room : pseudo + segment + 65535 < 2 ^ 32

pseudo_bound :
    (b : List ℕ) (ip count p : ℕ)
    → Bytes b
    → count < 65536
    → pseudo_sum b ip count ≡ some p
    → p < 524288
unfolding pseudo_sum
pseudo_bound b ip count p h c e =
    let (w0, q0, e0) = >>=_some (word_at b (ip + 12)) _ e in
    let (w1, q1, e1) = >>=_some (word_at b (ip + 14)) _ e0 in
    let (w2, q2, e2) = >>=_some (word_at b (ip + 16)) _ e1 in
    let (w3, q3, e3) = >>=_some (word_at b (ip + 18)) _ e2 in
    let (proto, q4, e4) = >>=_some (get_elem? b (ip + 9)) _ e3 in
    let r : w0 + w1 + w2 + w3 + 256 * proto + (count / 256 + 256 * (count % 256)) ≡ p =
      some_inj e4 in
    omega (
      arith,
      word_bound b (ip + 12) w0 h q0,
      word_bound b (ip + 14) w1 h q1,
      word_bound b (ip + 16) w2 h q2,
      word_bound b (ip + 18) w3 h q3,
      byte_bound b (ip + 9) proto h q4,
    )

count_bound : (b : List ℕ) (ip count : ℕ) → segment_length b ip ≡ some count → count < 65536
unfolding segment_length
count_bound b ip count e =
    let (hi, q0, e0) = >>=_some (get_elem? b (ip + 2)) _ e in
    let (lo, q1, e1) = >>=_some (get_elem? b (ip + 3)) _ e0 in
    let (ihl, q2, e2) = >>=_some (get_elem? b ip) _ e1 in
    let r : (hi * 256 + lo + 65536 - ihl % 16 * 4) % 65536 ≡ count = some_inj e2 in omega arith

-- What the loop gives where the sum of the words is known, and that it is.
summed :
    (o : Option ℕ) (p s : ℕ)
    → (o >>= λ t. some ((p + t) % 2 ^ 32)) ≡ some s
    → (t : ℕ) × (o ≡ some t) × ((p + t) % 2 ^ 32 ≡ s)
summed none p s e = cc
summed (some t) p s e = (t, refl, cc)

pub compute_tcp_checksum-Computed :
    (b : List ℕ) (ip tcp csum : ℕ)
    → Bytes b
    → compute_tcp_checksum b ip tcp ≡ some csum
    → Computed b ip tcp csum
unfolding compute_tcp_checksum
compute_tcp_checksum-Computed b ip tcp csum h e =
    let (count, q0, e0) = >>=_some (segment_length b ip) _ e in
    let (pseudo, q1, e1) = >>=_some (pseudo_sum b ip count) _ e0 in
    let (sum, q2, e2) = >>=_some (sum_from b tcp count pseudo) _ e1 in
    let (folded, q3, e3) = >>=_some (fold_carry 4 sum) _ e2 in
    let c = count_bound b ip count q0 in
    let p = pseudo_bound b ip count pseudo h c q1 in
    let (t, q4, e4) =
      summed (total b tcp count) pseudo sum
        (sym (sum_from-total count b tcp pseudo (omega (arith, p))) ∙ q2) in
    let u = total_bound count b tcp t h q4 in
    let whole : pseudo + t ≡ sum = omega (arith, p, u, c, e4) in
    record {
      count = count;
      pseudo = pseudo;
      segment = t;
      folded = folded;
      length_is = q0;
      pseudo_is = q1;
      segment_is = q4;
      folded_is = ap (fold_carry 4) whole ∙ q3;
      csum_is = some_inj e3;
      room = omega (arith, p, u, c);
    }

pub segment_length-same :
    (b b' : List ℕ) (ip : ℕ)
    → ((j : ℕ) → j < ip + 4 → get_elem? b' j ≡ get_elem? b j)
    → segment_length b' ip ≡ segment_length b ip
unfolding segment_length
segment_length-same b b' ip k =
    rw (k (ip + 2) (omega arith), k (ip + 3) (omega arith), k ip (omega arith)) refl

pseudo_sum-same :
    (b b' : List ℕ) (ip i v count : ℕ)
    → Replaced b b' i v
    → ip + 20 ≤ i
    → pseudo_sum b' ip count ≡ pseudo_sum b ip count
unfolding pseudo_sum
pseudo_sum-same b b' ip i v count r h =
    let byte = λ (j : ℕ) (l : j < i). r.same j (omega arith) (omega arith) in
    rw
      (
        word_at-same b b' (ip + 12) (byte (ip + 12) (omega arith))
            (byte (ip + 12 + 1) (omega arith)),
        word_at-same b b' (ip + 14) (byte (ip + 14) (omega arith))
            (byte (ip + 14 + 1) (omega arith)),
        word_at-same b b' (ip + 16) (byte (ip + 16) (omega arith))
            (byte (ip + 16 + 1) (omega arith)),
        word_at-same b b' (ip + 18) (byte (ip + 18) (omega arith))
            (byte (ip + 18 + 1) (omega arith)),
        byte (ip + 9) (omega arith),
      )
      refl

-- Where the TCP header stands behind an IP header of 20 bytes at least, and the segment covers the checksum
-- field: the checksum that was computed with the field at 0, written there, makes the checksum 0.
pub compute_tcp_checksum-Replaced :
    (b b' : List ℕ) (ip tcp csum count : ℕ)
    → Bytes b
    → compute_tcp_checksum b ip tcp ≡ some csum
    → Replaced b b' (tcp + 16) csum
    → ip + 20 ≤ tcp
    → segment_length b ip ≡ some count
    → 18 ≤ count
    → compute_tcp_checksum b' ip tcp ≡ some 0
unfolding compute_tcp_checksum
compute_tcp_checksum-Replaced b b' ip tcp csum count h e r behind l enough =
    let k = compute_tcp_checksum-Computed b ip tcp csum h e in
    let same_count : k.count ≡ count = some_inj (sym k.length_is ∙ l) in
    let segment =
      total-Replaced k.count 8 b b' tcp (tcp + 16) csum k.segment r refl (omega arith)
        k.segment_is in
    let sum : (k.pseudo + (k.segment + csum)) % 2 ^ 32 ≡ k.pseudo + k.segment + (65535 - k.folded) =
      omega (arith, k.csum_is, k.room) in
    let summed' : sum_from b' tcp k.count k.pseudo
        ≡ some (k.pseudo + k.segment + (65535 - k.folded)) =
      sum_from-total k.count b' tcp k.pseudo (omega (arith, k.room))
      ∙ ap (λ o. o >>= λ t. some ((k.pseudo + t) % 2 ^ 32)) segment
      ∙ ap (λ s. some s) sum in
    rw
      (
        segment_length-same b b' ip (λ j l. r.same j (omega arith) (omega arith)),
        k.length_is,
        pseudo_sum-same b b' ip (tcp + 16) csum k.count r (omega arith),
        k.pseudo_is,
        summed',
        fold_carry_complement (k.pseudo + k.segment) k.folded k.room k.folded_is,
      )
      refl
