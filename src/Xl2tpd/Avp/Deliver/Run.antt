-- ===== src/Xl2tpd/Avp/Deliver/Run.antt =====
-- xl2tpd/avp.c: the loop of `handle_avps` on the bytes of AVPs in clear.
use zy_agf.Prelude.{
  ℕ, zero, suc, ◌+◌, ◌-◌, ◌≤◌, ◌<◌, Bool, true, false, not, ◌&&◌, ◌==◌, List, [], ◌∷◌, ◌++◌, ◌≡◌,
  refl, sym, ◌∙◌, ap, arith, length, drop, length-append, drop-append, All, fun_ext, le→ltb,
}
use zy_agf.Xl2tpd.Avp.{State, Env, Ran}
use zy_agf.Xl2tpd.Avp.Loop.{handler, avps_from, handle_avps}
use zy_agf.Xl2tpd.Avp.Deliver.{
  Plain, Fits, encode, encode_all, deliver_one, deliver, size, avp_step-encode,
  call_with-deliver_one,
}

-- Whether the message type AVP stands where the code wants it.
abbrev pub StartsRight : Bool → List Plain → Type 0
StartsRight first [] = Unit
StartsRight first (a ∷ rest) = (not (a.attr == 0) && first) ≡ false

size-cons : (a : Plain) (avps : List Plain) → size (a ∷ avps) ≡ 6 + length a.value + size avps
size-cons a avps = omega (arith, length-append a.value (encode_all avps []))

drop-encode : (a : Plain) (rest : List ℕ) → drop (6 + length a.value) (encode a rest) ≡ rest
drop-encode a rest =
    let six : 6 + length a.value ≡ suc (suc (suc (suc (suc (suc (length a.value)))))) =
      omega arith in
    rw six (drop-append a.value rest)

StartsRight-false : (avps : List Plain) → StartsRight false avps
StartsRight-false [] = tt
StartsRight-false (a ∷ rest) = and_false (not (a.attr == 0))
  where
    and_false : (b : Bool) → (b && false) ≡ false
    and_false true = refl
    and_false false = refl

-- One AVP in front of others for which the loop is known.
avps_from-cons :
    (env : Env) (c : ℕ) (a : Plain) (avps : List Plain) (rest : List ℕ) (fuel : ℕ) (s : State)
    (first : Bool)
    → Fits a
    → (not (a.attr == 0) && first) ≡ false
    → ((s' : State)
        → avps_from env fuel s' c (encode_all avps rest) (size avps) false
          ≡ deliver env c avps rest s')
    → avps_from env (suc fuel) s c (encode_all (a ∷ avps) rest) (size (a ∷ avps)) first
      ≡ deliver env c (a ∷ avps) rest s
unfolding avps_from deliver
avps_from-cons env c a avps rest fuel s first f h ih =
    let fits : 6 + length a.value ≤ size (a ∷ avps) = omega (arith, size-cons a avps) in
    rw
      (some_left, avp_step-encode env s c (size (a ∷ avps)) a (encode_all avps rest) first f fits h)
      (call_with-deliver_one s c (size (a ∷ avps)) a (encode_all (a ∷ avps) rest) again f fits
          (handler env a.attr)
        ∙ ap (deliver_one s c a (encode_all (a ∷ avps) rest) (handler env a.attr)) (fun_ext later))
  where
    again : State → ℕ → Ran
    again s' skip =
        avps_from env fuel s' c (drop skip (encode_all (a ∷ avps) rest)) (size (a ∷ avps) - skip)
          false

    some_left : (size (a ∷ avps) == 0) ≡ false
    some_left = ground (arith, size-cons a avps)

    later : (s' : State) → again s' (6 + length a.value) ≡ deliver env c avps rest s'
    later s' =
        let left : size (a ∷ avps) - (6 + length a.value) ≡ size avps =
          omega (arith, size-cons a avps) in
        rw (left, drop-encode a (encode_all avps rest)) (ih s')

avps_from-deliver :
    (env : Env) (c : ℕ) (avps : List Plain) (rest : List ℕ) (fuel : ℕ) (s : State) (first : Bool)
    → All Fits avps
    → StartsRight first avps
    → size avps < fuel
    → avps_from env fuel s c (encode_all avps rest) (size avps) first ≡ deliver env c avps rest s
unfolding avps_from deliver
avps_from-deliver env c avps rest zero s first f h enough = absurd (omega arith)
avps_from-deliver env c [] rest (suc fuel) s first f h enough = refl
avps_from-deliver env c (a ∷ avps) rest (suc fuel) s first (f, fs) h enough =
    avps_from-cons env c a avps rest fuel s first f h (λ s'.
      avps_from-deliver env c avps rest fuel s' false fs (StartsRight-false avps)
        (omega (arith, size-cons a avps)))

-- A message whose AVPs are in clear, known to the table and within the length field, the first of them
-- the message type if there is one, is handled by giving each AVP to its handler in turn, until a
-- mandatory one fails: the loop finds where each AVP starts, 12 bytes of header before them are skipped,
-- and it stops at the last one. A handler is given the bytes from its AVP on, with the AVPs behind it and
-- the bytes `rest` behind the message.
pub handle_avps-encode_all :
    (env : Env) (s : State) (c : ℕ) (header : List ℕ) (avps : List Plain) (rest : List ℕ)
    → length header ≡ 12
    → All Fits avps
    → StartsRight true avps
    → handle_avps env s c (header ++ encode_all avps rest) (12 + size avps)
      ≡ deliver env c avps rest s
unfolding handle_avps
handle_avps-encode_all env s c header avps rest h f start =
    let cut : drop 12 (header ++ encode_all avps rest) ≡ encode_all avps rest =
      ap (λ n. drop n (header ++ encode_all avps rest)) (sym h)
      ∙ drop-append header (encode_all avps rest) in
    let len : 12 + size avps - 12 ≡ size avps = omega arith in
    rw (le→ltb (12 + size avps) 12 (omega arith), cut, len)
      (avps_from-deliver env c avps rest (suc (size avps)) s true f start (omega arith))
