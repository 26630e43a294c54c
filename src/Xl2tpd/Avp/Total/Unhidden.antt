-- ===== src/Xl2tpd/Avp/Total/Unhidden.antt =====
-- xl2tpd/aaa.c: what `decrypt_avp` leaves, and where it lies.
use zy_agf.Prelude.{
  ℕ, suc, ◌+◌, ◌-◌, ◌*◌, ◌/◌, ◌%◌, ◌≤◌, false, Option, none, some, List, [], ◌∷◌, ◌++◌, ◌≡◌, refl,
  ap, arith, ltb, length, take, drop, length-drop, length-take, length-append, Bool-cases, inl, inr,
}
use zy_agf.Pppoe.Tags.Scan.{encode16}
use zy_agf.Xl2tpd.Avp.{Env, Challenge, word, alength}
use zy_agf.Xl2tpd.Avp.Reads.{word-inside, bytes_at-inside}
use zy_agf.Xl2tpd.Avp.Returns.{Enough}
use zy_agf.Xl2tpd.Avp.Hidden.{decrypt_bytes, new_header, decrypt_with, decrypt_avp}

-- A refusal, or an AVP for which there are enough bytes.
pub data Clear : Option (List ℕ) → Type 0 where
  refused : Clear none
  in_clear : (raw : List ℕ) (w : ℕ) → Enough raw w → Clear (some raw)

length-decrypt_bytes :
    (bs : List ℕ) (md5 : List ℕ → List ℕ) (secret digest : List ℕ) (cnt : ℕ) (saved : List ℕ)
    → length (decrypt_bytes md5 secret digest cnt saved bs) ≡ length bs
unfolding decrypt_bytes
length-decrypt_bytes [] md5 secret digest cnt saved = refl
length-decrypt_bytes (b ∷ bs) md5 secret digest cnt saved =
    ap suc (length-decrypt_bytes bs md5 secret _ _ _)

-- The header that `decrypt_avp` writes.
new_header-Enough :
    (w inner vendorid attr : ℕ) (raw : List ℕ)
    → w % 0x1000 ≡ alength w
    → alength w ≤ length raw
    → 12 ≤ length raw
    → ltb (w % 0x1000 - 2) (inner + 6) ≡ false
    → (w' : ℕ) × Enough
        (encode16
          (inner + 6 + (w / 0x8000 * 0x8000 + w / 0x1000 % 4 * 0x1000))
          (encode16 vendorid (encode16 attr (drop 8 raw))))
        w'
unfolding word
new_header-Enough w inner vendorid attr raw flat fits long small =
    let le : inner + 6 ≤ w % 0x1000 - 2 = ground arith in
    let d = length-drop 8 raw in (_, (omega arith, refl, omega arith, omega arith))

module _ (w : ℕ) (raw : List ℕ) (flat : w % 0x1000 ≡ alength w) (long : 12 ≤ length raw)
    (fits : alength w ≤ length raw) where
  new_header-Clear : (r : Option (List ℕ)) × (new_header w raw ≡ some r) × Clear r
  unfolding new_header
  new_header-Clear =
      let (v, e1) = word-inside raw 1 (omega arith) in
      let (a, e2) = word-inside raw 2 (omega arith) in
      let (i, e3) = word-inside raw 3 (omega arith) in
      rw (e1, e2, e3)
        (elim (Bool-cases (ltb (w % 0x1000 - 2) (i + 6))) [
          | inl over ↦ rw over (none, refl, refused)
          | inr small ↦
              let (w', e) = new_header-Enough w i v a raw flat fits long small in
              rw small (_, refl, in_clear _ w' e)
        ])

length-decrypted :
    (n : ℕ) (raw plain : List ℕ)
    → n ≤ length raw
    → 6 ≤ n
    → length plain ≡ n - 6
    → length (take 6 raw ++ (plain ++ drop n raw)) ≡ length raw
length-decrypted n raw plain fits least e = omega (
  arith,
  length-append (take 6 raw) (plain ++ drop n raw),
  length-append plain (drop n raw),
  length-take 6 raw,
  length-drop n raw,
)

-- Decryption reads only the hidden AVP, and refuses it or leaves an AVP inside of it.
pub decrypt_avp-Clear :
    (env : Env) (chal : Challenge) (raw : List ℕ) (w : ℕ)
    → word raw 0 ≡ some w
    → w % 0x1000 ≡ alength w
    → 12 ≤ length raw
    → alength w ≤ length raw
    → 6 ≤ alength w
    → (r : Option (List ℕ)) × (decrypt_avp env chal raw ≡ some r) × Clear r
unfolding decrypt_avp decrypt_with
decrypt_avp-Clear env chal raw w len flat long fits least = rw len (with_vector chal.vector)
  where
    with_vector :
        (vector : Option (List ℕ))
        → (r : Option (List ℕ)) × (decrypt_with env chal raw w (w % 0x1000) vector ≡ some r)
          × Clear r
    with_vector none = (none, refl, refused)
    with_vector (some vector) =
        let n = w % 0x1000 - 6 in
        let cipher = take n (drop 6 raw) in
        let e =
          length-decrypted (w % 0x1000) raw
            (decrypt_bytes env.md5 chal.secret
              (env.md5 (take 2 (drop 4 raw) ++ (chal.secret ++ vector))) 0 [] cipher)
            (omega arith) (omega arith)
            (omega (
              arith,
              length-decrypt_bytes cipher env.md5 chal.secret
                  (env.md5 (take 2 (drop 4 raw) ++ (chal.secret ++ vector))) 0 [],
              length-take n (drop 6 raw),
              length-drop 6 raw,
            )) in
        rw (bytes_at-inside raw 3 n (omega arith))
          (new_header-Clear w _ flat (omega arith) (omega arith))
