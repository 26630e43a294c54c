-- ===== src/Fcs/Check.antt =====
-- Data with its check sequence behind it leaves PPP_GOODFCS, whatever the data is.
use zy_agf.Prelude.{
  ℕ, ◌/◌, ◌%◌, ◌<◌, bit_xor, true, List, [], ◌∷◌, ◌++◌, get_or, ◌==◌, ==_iff, ◌≡◌, refl, sym, ap,
  ◌∙◌, arith, holds_below, holds_below_lem,
}
use zy_agf.Fcs.{fcstab, ppp_crc16_table, fcs_step, ppp_fcs16, fcs_of, fcs_bytes, add_fcs}

-- The tables of the two programs are the same.
pub fcstab-eq : fcstab ≡ ppp_crc16_table
unfolding fcstab ppp_crc16_table
fcstab-eq = refl

-- PPP_GOODFCS
abbrev pub good_fcs : ℕ
good_fcs = 0xf0b8

-- Checked for every value of the sequence.
good_table :
    holds_below 65536 (λ f.
      fcs_step fcstab (fcs_step fcstab f (bit_xor f 0xffff % 256)) (bit_xor f 0xffff / 256 % 256)
      == good_fcs)
    ≡ true
unfolding holds_below fcs_step fcstab
good_table = refl

bound_table :
    holds_below 256 (λ h. holds_below 256 (λ i. bit_xor h (get_or fcstab i 0) / 65536 == 0)) ≡ true
unfolding holds_below fcstab
bound_table = refl

step-lt : (f c : ℕ) → f < 65536 → fcs_step fcstab f c < 65536
unfolding fcs_step
step-lt f c h =
    let i = bit_xor f c % 256 in
    let row =
      holds_below_lem 256 (λ g. holds_below 256 (λ k. bit_xor g (get_or fcstab k 0) / 65536 == 0))
        (f / 256) bound_table (omega arith) in
    let cell =
      holds_below_lem 256 (λ k. bit_xor (f / 256) (get_or fcstab k 0) / 65536 == 0) i row
        (omega arith) in
    omega (arith, (==_iff (bit_xor (f / 256) (get_or fcstab i 0) / 65536) 0).0 cell)

ppp_fcs16-lt : (f : ℕ) (cp : List ℕ) → f < 65536 → ppp_fcs16 f cp < 65536
unfolding ppp_fcs16
ppp_fcs16-lt f [] h = h
ppp_fcs16-lt f (c ∷ cp) h = ppp_fcs16-lt (fcs_step fcstab f c) cp (step-lt f c h)

ppp_fcs16-append : (f : ℕ) (xs ys : List ℕ) → ppp_fcs16 f (xs ++ ys) ≡ ppp_fcs16 (ppp_fcs16 f xs) ys
unfolding ppp_fcs16
ppp_fcs16-append f [] ys = refl
ppp_fcs16-append f (x ∷ xs) ys = ppp_fcs16-append (fcs_step fcstab f x) xs ys

good_bytes : (f : ℕ) → f < 65536 → ppp_fcs16 f (fcs_bytes f) ≡ good_fcs
unfolding ppp_fcs16
good_bytes f h = (==_iff _ good_fcs).0 (
    holds_below_lem 65536
      (λ g.
        fcs_step fcstab (fcs_step fcstab g (bit_xor g 0xffff % 256)) (bit_xor g 0xffff / 256 % 256)
        == good_fcs)
      f good_table h)

-- From any 16-bit start, data of any length and content with the two bytes of its sequence behind it
-- leaves PPP_GOODFCS.
pub ppp_fcs16-good :
    (start : ℕ) (cp : List ℕ)
    → start < 65536
    → ppp_fcs16 start (cp ++ fcs_bytes (ppp_fcs16 start cp)) ≡ good_fcs
ppp_fcs16-good start cp h =
    ppp_fcs16-append start cp (fcs_bytes (ppp_fcs16 start cp))
    ∙ good_bytes (ppp_fcs16 start cp) (ppp_fcs16-lt start cp h)

fcs_of-eq : (f : ℕ) (cp : List ℕ) → fcs_of f cp ≡ ppp_fcs16 f cp
unfolding fcs_of ppp_fcs16
fcs_of-eq f [] = refl
fcs_of-eq f (c ∷ cp) =
    fcs_of-eq (fcs_step ppp_crc16_table f c) cp
    ∙ ap (λ t. ppp_fcs16 (fcs_step t f c) cp) (sym fcstab-eq)

-- Data that xl2tpd closes by `add_fcs` leaves PPP_GOODFCS in rp-pppoe's `pppFCS16`.
pub add_fcs-good : (buf : List ℕ) → ppp_fcs16 0xffff (add_fcs buf) ≡ good_fcs
unfolding add_fcs
add_fcs-good buf = rw (fcs_of-eq 0xffff buf) (ppp_fcs16-good 0xffff buf (omega arith))
