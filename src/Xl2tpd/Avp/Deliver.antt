-- ===== src/Xl2tpd/Avp/Deliver.antt =====
-- xl2tpd/avp.c: `handle_avps` against a description without lengths and headers: a message is a list of
-- AVPs, which go to their handlers one after the other.
pub mod Run
use zy_agf.Prelude.{
  ◌>>=◌, ℕ, zero, suc, ◌+◌, ◌-◌, ◌*◌, ◌/◌, ◌%◌, ◌≤◌, ◌<◌, Bool, true, false, not, ◌&&◌, ◌||◌,
  Option, none, some, List, [], ◌∷◌, ◌++◌, ◌≡◌, refl, sym, ◌∙◌, ap, arith, ltb, ◌==◌, le→ltb,
  length, take, drop, if◌then◌else◌, length-append, append_assoc, drop-append, All, fun_ext,
}
use zy_agf.Pppoe.Tags.Scan.{encode16}
use zy_agf.Xl2tpd.Avp.{State, Env, Ran, Handler, word, alength, edit, set_error}
use zy_agf.Xl2tpd.Avp.Loop.{
  handler, Pass, refuse, next, fail_if_mandatory, handled, call_with, call_handler, avp_step, go_on,
  avps_from, handle_avps, azbits, ahbit, ambit,
}

-- An AVP in clear.
pub record Plain : Type 0 where
  pub mandatory : Bool
  pub vendorid : ℕ
  pub attr : ℕ
  pub value : List ℕ

-- An AVP that the table knows and whose length fits its field.
pub record Fits (a : Plain) : Type 0 where
  pub known : a.attr ≤ 39
  pub short : length a.value ≤ 1017

abbrev pub length_word : Plain → ℕ
length_word a = (if a.mandatory then 0x8000 else 0) + (6 + length a.value)

-- The bytes of an AVP in front of others.
abbrev pub encode : Plain → List ℕ → List ℕ
encode a rest = encode16 (length_word a) (encode16 a.vendorid (encode16 a.attr (a.value ++ rest)))

abbrev pub encode_all : List Plain → List ℕ → List ℕ
encode_all [] rest = rest
encode_all (a ∷ avs) rest = encode a (encode_all avs rest)

-- One AVP, its bytes and the handler for it: without a handler, and where the handler fails, a mandatory
-- AVP ends the message.
unfoldable pub deliver_one : State → ℕ → Plain → List ℕ → Option Handler → (State → Ran) → Ran
deliver_one s c a raw none again = if a.mandatory then some (set_error s c 6, true) else again s
deliver_one s c a raw (some handle) again = do
  (s', bad) ← handle s c raw (6 + length a.value)
  (if bad && a.mandatory
      then some (edit s' c (λ k. record k { needclose = true }), true)
      else again s')

-- The AVPs of a message, with the bytes `rest` behind them.
unfoldable pub deliver : Env → ℕ → List Plain → List ℕ → State → Ran
deliver env c [] rest s = some (s, false)
deliver env c (a ∷ avs) rest s =
    deliver_one s c a (encode_all (a ∷ avs) rest) (handler env a.attr) (deliver env c avs rest)

pub word0 : (a : Plain) (rest : List ℕ) → word (encode a rest) 0 ≡ some (length_word a)
unfolding word
word0 a rest = ap some (split (length_word a))
  where
    split : (n : ℕ) → n / 256 * 256 + n % 256 ≡ n
    split n = omega arith

word2 : (a : Plain) (rest : List ℕ) → word (encode a rest) 2 ≡ some a.attr
unfolding word
word2 a rest = ap some (split a.attr)
  where
    split : (n : ℕ) → n / 256 * 256 + n % 256 ≡ n
    split n = omega arith

-- The fields of the length word.
pub alength-length_word : (a : Plain) → Fits a → alength (length_word a) ≡ 6 + length a.value
alength-length_word a f = ground (arith, f.short)

ambit-length_word : (a : Plain) → Fits a → ambit (length_word a) ≡ a.mandatory
ambit-length_word a f = ground (arith, f.short)

ahbit-length_word : (a : Plain) → Fits a → ahbit (length_word a) ≡ false
ahbit-length_word a f = ground (arith, f.short)

azbits-length_word : (a : Plain) → Fits a → azbits (length_word a) ≡ false
azbits-length_word a f = ground (arith, f.short)

-- The length of the bytes of AVPs.
abbrev pub size : List Plain → ℕ
size avs = length (encode_all avs [])

pub some_skip : (n : ℕ) → (6 + n == 0) ≡ false
some_skip n = ground arith

-- What a pass does after its handler, for any outcome.
handled_lem :
    (s : State) (c len : ℕ) (a : Plain) (bad : Bool) (again : State → ℕ → Ran)
    → Fits a
    → 6 + length a.value ≤ len
    → go_on len again (handled c (length_word a) (6 + length a.value) (s, bad)) ≡ (
        if bad && a.mandatory
        then some (edit s c (λ k. record k { needclose = true }), true)
        else again s (6 + length a.value))
unfolding handled go_on
handled_lem s c len a bad again f fits = rw (ambit-length_word a f) (by_bit (bad && a.mandatory))
  where
    by_bit :
        (b : Bool)
        → go_on len again (
            if b
            then refuse (edit s c (λ k. record k { needclose = true }))
            else next s (6 + length a.value))
          ≡ (if b
              then some (edit s c (λ k. record k { needclose = true }), true)
              else again s (6 + length a.value))
    by_bit true = refl
    by_bit false = rw (some_skip (length a.value), le→ltb len (6 + length a.value) fits) refl

module _ (s : State) (c len : ℕ) (a : Plain) (raw : List ℕ) (again : State → ℕ → Ran) (f : Fits a)
    (fits : 6 + length a.value ≤ len) where
  ran_lem :
      (r : Ran)
      → ((r >>= λ ran. some (handled c (length_word a) (6 + length a.value) ran))
          >>= go_on len again)
        ≡ (r >>= λ p.
            if p.1 && a.mandatory
            then some (edit p.0 c (λ k. record k { needclose = true }), true)
            else again p.0 (6 + length a.value))
  ran_lem none = refl
  ran_lem (some (s', bad)) = handled_lem s' c len a bad again f fits

  missing_lem :
      (b : Bool)
      → go_on len again (if b then refuse (set_error s c 6) else next s (6 + length a.value))
        ≡ (if b then some (set_error s c 6, true) else again s (6 + length a.value))
  unfolding go_on
  missing_lem true = refl
  missing_lem false = rw (some_skip (length a.value), le→ltb len (6 + length a.value) fits) refl

  -- A pass over an AVP in clear, without its tests, delivers it.
  pub call_with-deliver_one :
      (o : Option Handler)
      → (call_with s c raw (length_word a) (6 + length a.value) o >>= go_on len again)
        ≡ deliver_one s c a raw o (λ s'. again s' (6 + length a.value))
  unfolding call_with deliver_one fail_if_mandatory
  call_with-deliver_one none = rw (ambit-length_word a f) (missing_lem a.mandatory)
  call_with-deliver_one (some handle) =
      rw (alength-length_word a f) (ran_lem (handle s c raw (6 + length a.value)))

-- The tests of a pass let an AVP in clear through, where it may stand.
pub avp_step-encode :
    (env : Env) (s : State) (c len : ℕ) (a : Plain) (rest : List ℕ) (first : Bool)
    → Fits a
    → 6 + length a.value ≤ len
    → (not (a.attr == 0) && first) ≡ false
    → avp_step env s c (encode a rest) len first
      ≡ call_with s c (encode a rest) (length_word a) (6 + length a.value) (handler env a.attr)
unfolding avp_step call_handler
avp_step-encode env s c len a rest first f fits h =
    rw
      (
        word0 a rest,
        word2 a rest,
        le→ltb 39 a.attr f.known,
        alength-length_word a f,
        le→ltb len (6 + length a.value) fits,
        h,
        le→ltb (6 + length a.value) 6 (omega arith),
        azbits-length_word a f,
        ahbit-length_word a f,
      )
      refl
