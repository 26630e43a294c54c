-- ===== src/Xl2tpd/Avp/Hidden/Header.antt =====
-- xl2tpd/aaa.c: the header of a hidden AVP, as `encrypt_avp` writes it and as `decrypt_avp` reads it.
use zy_agf.Prelude.{
  ℕ, ◌+◌, ◌-◌, ◌*◌, ◌/◌, ◌%◌, ◌≤◌, ◌<◌, bit_or, Bool, true, false, none, some, List, [], ◌∷◌, ◌++◌,
  ◌≡◌, refl, sym, ◌∙◌, ap, arith, ltb, leb, ◌==◌, ==_iff, length, take, drop, if◌then◌else◌,
  length-append, append-nil, take-append, holds_below, holds_below_lem,
}
use zy_agf.Pppoe.Tags.Scan.{encode16}
use zy_agf.Xl2tpd.Avp.{word, bytes_at}
use zy_agf.Xl2tpd.Avp.Deliver.{Plain, length_word}
use zy_agf.Xl2tpd.Avp.Hidden.{new_header}

abbrev pub bits : Bool → ℕ
bits mandatory = if mandatory then 0x8000 else 0

-- Checked for all lengths.
or_table : holds_below 4096 (λ l. bit_or l 0xC000 == l + 0xC000) ≡ true
unfolding holds_below
or_table = refl

or_table' : holds_below 4096 (λ l. bit_or l 0x4000 == l + 0x4000) ≡ true
unfolding holds_below
or_table' = refl

-- The length word of a hidden AVP.
pub hidden_word :
    (b : Bool) (len size : ℕ)
    → len < 4096
    → size < 4096
    → bit_or size (bit_or ((bits b + len) / 0x1000 * 0x1000) 0x4000) ≡ bits b + 0x4000 + size
hidden_word true len size hl hs =
    let top : (0x8000 + len) / 0x1000 * 0x1000 ≡ 0x8000 = omega arith in
    let cell =
      (==_iff _ (size + 0xC000)).0
        (holds_below_lem 4096 (λ l. bit_or l 0xC000 == l + 0xC000) size or_table hs) in
    ap (λ t. bit_or size (bit_or t 0x4000)) top ∙ cell ∙ omega arith
hidden_word false len size hl hs =
    let top : (0 + len) / 0x1000 * 0x1000 ≡ 0 = omega arith in
    let cell =
      (==_iff _ (size + 0x4000)).0
        (holds_below_lem 4096 (λ l. bit_or l 0x4000 == l + 0x4000) size or_table' hs) in
    ap (λ t. bit_or size (bit_or t 0x4000)) top ∙ cell ∙ omega arith

-- A hidden AVP whose cipher text is `cipher`.
abbrev pub hidden : Plain → ℕ → List ℕ → List ℕ → List ℕ
hidden a n cipher behind =
    encode16 (bits a.mandatory + 0x4000 + (n * 16 + 6))
      (encode16 a.vendorid (encode16 a.attr (cipher ++ behind)))

-- A read of bytes that stand behind `2 * k` others.
pub read_behind :
    (raw xs ys : List ℕ) (m k : ℕ)
    → length xs ≡ m
    → drop (2 * k) raw ≡ xs ++ ys
    → length raw ≡ 2 * k + length (xs ++ ys)
    → bytes_at raw k m ≡ some xs
unfolding bytes_at
read_behind raw xs ys m k e here whole =
    let on : leb (2 * k + m) (length raw) ≡ true = ground (arith, length-append xs ys, e, whole) in
    rw (on, here) (ap some (ap (λ n. take n (xs ++ ys)) (sym e) ∙ take-append xs ys))

pub join : (n : ℕ) → n / 256 * 256 + n % 256 ≡ n
join n = omega arith

pub take_whole : (v : List ℕ) → length v ≡ 16 → take 16 v ≡ v
take_whole v e =
    ap (λ k. take k v) (sym e) ∙ ap (take (length v)) (sym (append-nil v)) ∙ take-append v []

-- The header that `decrypt_avp` writes.
pub new_header_lem :
    (a : Plain) (w1 w2 : ℕ) (rest : List ℕ) (n : ℕ)
    → length a.value + 2 ≤ n * 16
    → n * 16 ≤ 1040
    → new_header
        (bits a.mandatory + 0x4000 + (n * 16 + 6))
        (w1 ∷ w2 ∷ encode16 a.vendorid (encode16 a.attr (encode16 (length a.value) rest)))
      ≡ some (some (encode16 (length_word a) (encode16 a.vendorid (encode16 a.attr rest))))
unfolding new_header word
new_header_lem a w1 w2 rest n fits short =
    rw (join a.vendorid, join a.attr, join (length a.value)) (header a.mandatory)
  where
    header :
        (b : Bool)
        → (if ltb ((bits b + 0x4000 + (n * 16 + 6)) % 0x1000 - 2) (length a.value + 6)
            then some none
            else some (
                some (
                  encode16
                    (length a.value
                      + 6
                      + ((bits b + 0x4000 + (n * 16 + 6)) / 0x8000 * 0x8000
                          + (bits b + 0x4000 + (n * 16 + 6)) / 0x1000 % 4 * 0x1000))
                    (encode16 a.vendorid (encode16 a.attr rest)))))
          ≡ some (
              some (
                encode16
                  (bits b + (6 + length a.value))
                  (encode16 a.vendorid (encode16 a.attr rest))))
    header true =
        let size : (0x8000 + 0x4000 + (n * 16 + 6)) % 0x1000 ≡ n * 16 + 6 = omega (arith, short) in
        let off : ltb (n * 16 + 6 - 2) (length a.value + 6) ≡ false = ground (arith, fits) in
        let word' : length a.value
              + 6
              + ((0x8000 + 0x4000 + (n * 16 + 6)) / 0x8000 * 0x8000
                  + (0x8000 + 0x4000 + (n * 16 + 6)) / 0x1000 % 4 * 0x1000)
            ≡ 0x8000 + (6 + length a.value) =
          omega (arith, short) in
        rw (size, off, word') refl
    header false =
        let size : (0 + 0x4000 + (n * 16 + 6)) % 0x1000 ≡ n * 16 + 6 = omega (arith, short) in
        let off : ltb (n * 16 + 6 - 2) (length a.value + 6) ≡ false = ground (arith, fits) in
        let word' : length a.value
              + 6
              + ((0 + 0x4000 + (n * 16 + 6)) / 0x8000 * 0x8000
                  + (0 + 0x4000 + (n * 16 + 6)) / 0x1000 % 4 * 0x1000)
            ≡ 0 + (6 + length a.value) =
          omega (arith, short) in
        rw (size, off, word') refl
