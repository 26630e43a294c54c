-- ===== src/Fcs/Tests.antt =====
-- Tests and examples of the check sequence.
use zy_agf.Prelude.{List, [], ◌∷◌, ◌++◌, ℕ, ◌≡◌, refl, arith}
use zy_agf.Fcs.{ppp_fcs16, add_fcs, fcs_bytes, fcs_of, fcs_step, ppp_crc16_table}
use zy_agf.Fcs.Check.{good_fcs, ppp_fcs16-good}

-- "123456789", whose CRC-16/X-25 is 0x906e.
abbrev digits : List ℕ
digits = 0x31 ∷ 0x32 ∷ 0x33 ∷ 0x34 ∷ 0x35 ∷ 0x36 ∷ 0x37 ∷ 0x38 ∷ 0x39 ∷ []

add_fcs-digits : add_fcs digits ≡ digits ++ (0x6e ∷ 0x90 ∷ [])
unfolding add_fcs fcs_of fcs_step ppp_crc16_table
add_fcs-digits = refl

ppp_fcs16-good_example : ppp_fcs16 0xffff (digits ++ fcs_bytes (ppp_fcs16 0xffff digits)) ≡ good_fcs
ppp_fcs16-good_example = ppp_fcs16-good 0xffff digits (omega arith)
