-- ===== src/Pppoe/Clamp/Outside.antt =====
-- `computeTCPChecksum` trusts the length in the IP header.
use zy_agf.Prelude.{
  some_inj, ℕ, zero, suc, ◌+◌, ◌≤◌, ◌<◌, none, some, List, [], ◌∷◌, get_elem?, >>=_some, length,
  Option-cases, ◌≡◌, sym, ◌∙◌, arith, inl, inr,
}
use zy_agf.Pppoe.Framing.RoundTrip.{Bytes}
use zy_agf.Pppoe.Clamp.{word_at, segment_length, compute_tcp_checksum}
use zy_agf.Pppoe.Clamp.Sum.{total}
use zy_agf.Pppoe.Clamp.Checksum.{compute_tcp_checksum-Computed}

get_elem?_inside : (xs : List ℕ) (i x : ℕ) → get_elem? xs i ≡ some x → i < length xs
get_elem?_inside [] i x e = cc
get_elem?_inside (y ∷ xs) zero x e = omega arith
get_elem?_inside (y ∷ xs) (suc i) x e = let h = get_elem?_inside xs i x e in omega arith

word_inside : (b : List ℕ) (addr w : ℕ) → word_at b addr ≡ some w → addr + 2 ≤ length b
unfolding word_at
word_inside b addr w q =
    let (lo, q0, e0) = >>=_some (get_elem? b addr) _ q in
    let (hi, q1, e1) = >>=_some (get_elem? b (addr + 1)) _ e0 in
    let h = get_elem?_inside b (addr + 1) hi q1 in omega arith

-- A sum that is computed lies inside.
total_inside :
    (n : ℕ) (b : List ℕ) (addr t : ℕ) → 0 < n → total b addr n ≡ some t → addr + n ≤ length b
unfolding total
total_inside zero b addr t p e = absurd (omega arith)
total_inside (suc zero) b addr t p e = let h = get_elem?_inside b addr t e in omega arith
total_inside (suc (suc zero)) b addr t p e =
    let (w, q, e1) = >>=_some (word_at b addr) _ e in word_inside b addr w q
total_inside (suc (suc (suc n))) b addr t p e =
    let (w, q, e1) = >>=_some (word_at b addr) _ e in
    let (u, q2, e2) = >>=_some (total b (addr + 2) (suc n)) _ e1 in
    let h = total_inside (suc n) b (addr + 2) u (omega arith) q2 in omega arith

-- Where the IP header gives the segment a length that reaches past the end of the payload's array,
-- `computeTCPChecksum` reads outside the array.
pub compute_tcp_checksum_outside :
    (b : List ℕ) (ip tcp count : ℕ)
    → Bytes b
    → segment_length b ip ≡ some count
    → length b < tcp + count
    → 0 < count
    → compute_tcp_checksum b ip tcp ≡ none
compute_tcp_checksum_outside b ip tcp count h l out p =
    elim (Option-cases (compute_tcp_checksum b ip tcp)) [
      | inl e ↦ e
      | inr (csum, e) ↦
          let k = compute_tcp_checksum-Computed b ip tcp csum h e in
          let same : k.count ≡ count = some_inj (sym k.length_is ∙ l) in
          let within = total_inside k.count b tcp k.segment (omega arith) k.segment_is in
          absurd (omega arith)
    ]
