-- ===== src/Pppoe/Clamp/Tests.antt =====
-- Tests and examples of the clamping: a SYN from 10.0.0.1 to 10.0.0.2 with an MSS of 1460.
use zy_agf.Prelude.{ℕ, List, [], ◌∷◌, some, none, ◌≡◌, refl, arith}
use zy_agf.Pppoe.Framing.RoundTrip.{Bytes}
use zy_agf.Pppoe.Clamp.{
  set_at, word_at, sum_from, fold_carry, segment_length, pseudo_sum, compute_tcp_checksum, find_mss,
  write_mss, rewrite_mss, clamp_tcp, clamp_ip, clamp_mss,
}
use zy_agf.Pppoe.Clamp.Clamped.{clamp_mss-Result}
use zy_agf.Pppoe.Clamp.Outcome.{Result}
use zy_agf.Pppoe.Clamp.Written.{IsWhole}
use zy_agf.Pppoe.Clamp.Outside.{compute_tcp_checksum_outside}

abbrev syn : List ℕ
syn =
    0 ∷ 33 ∷ 69 ∷ 0 ∷ 0 ∷ 44 ∷ 0 ∷ 1 ∷ 64 ∷ 0 ∷ 64 ∷ 6 ∷ 0 ∷ 0 ∷ 10 ∷ 0 ∷ 0 ∷ 1 ∷ 10 ∷ 0 ∷ 0 ∷ 2
    ∷ 48 ∷ 57 ∷ 0 ∷ 80 ∷ 0 ∷ 0 ∷ 0 ∷ 1 ∷ 0 ∷ 0 ∷ 0 ∷ 0 ∷ 96 ∷ 2 ∷ 16 ∷ 0 ∷ 67 ∷ 154 ∷ 0 ∷ 0 ∷ 2 ∷ 4
    ∷ 5 ∷ 180 ∷ []

abbrev syn_1412 : List ℕ
syn_1412 =
    0 ∷ 33 ∷ 69 ∷ 0 ∷ 0 ∷ 44 ∷ 0 ∷ 1 ∷ 64 ∷ 0 ∷ 64 ∷ 6 ∷ 0 ∷ 0 ∷ 10 ∷ 0 ∷ 0 ∷ 1 ∷ 10 ∷ 0 ∷ 0 ∷ 2
    ∷ 48 ∷ 57 ∷ 0 ∷ 80 ∷ 0 ∷ 0 ∷ 0 ∷ 1 ∷ 0 ∷ 0 ∷ 0 ∷ 0 ∷ 96 ∷ 2 ∷ 16 ∷ 0 ∷ 67 ∷ 202 ∷ 0 ∷ 0 ∷ 2 ∷ 4
    ∷ 5 ∷ 132 ∷ []

clamped_syn : clamp_mss 1412 syn 46 ≡ some syn_1412
unfolding clamp_mss clamp_ip clamp_tcp rewrite_mss write_mss find_mss compute_tcp_checksum
    pseudo_sum segment_length fold_carry sum_from word_at set_at
clamped_syn = refl

syn-Bytes : Bytes syn
syn-Bytes = omega arith

syn-IsWhole : IsWhole syn 2 22
unfolding segment_length
syn-IsWhole = record { behind = omega arith; count = 24; length_is = refl; enough = omega arith }

clamp_mss-Result_example : Result 1412 syn 46 0 33 2 22 syn_1412
clamp_mss-Result_example =
    clamp_mss-Result 1412 syn syn_1412 46 0 33 69 syn-Bytes refl refl refl syn-IsWhole clamped_syn

-- An IP header of 20 bytes that gives a length of 64.
abbrev long : List ℕ
long =
    69 ∷ 0 ∷ 0 ∷ 64 ∷ 0 ∷ 1 ∷ 64 ∷ 0 ∷ 64 ∷ 6 ∷ 0 ∷ 0 ∷ 10 ∷ 0 ∷ 0 ∷ 1 ∷ 10 ∷ 0 ∷ 0 ∷ 2 ∷ 48 ∷ 57
    ∷ 0 ∷ 80 ∷ []

long-Bytes : Bytes long
long-Bytes = omega arith

compute_tcp_checksum_outside_example : compute_tcp_checksum long 0 20 ≡ none
unfolding segment_length
compute_tcp_checksum_outside_example =
    compute_tcp_checksum_outside long 0 20 44 long-Bytes refl (omega arith) (omega arith)
