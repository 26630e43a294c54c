-- ===== src/Xl2tpd/Avp/Hidden/Segments.antt =====
-- xl2tpd/aaa.c: the loops of `encrypt_avp` and `decrypt_avp` over the segments of an AVP.
use zy_agf.Prelude.{
  ℕ, zero, suc, ◌+◌, ◌*◌, ◌≤◌, ◌<◌, bit_xor, true, false, List, [], ◌∷◌, ◌++◌, ◌≡◌, ◌⊎◌, inl, inr,
  refl, sym, ◌∙◌, ap, arith, leb, ◌==◌, ==_iff, length, take, drop, get_or, length-append,
  length-take, length-drop, take-append-drop, append-nil, take-append, All, holds_below,
  holds_below_lem,
}
use zy_agf.Xl2tpd.Avp.Hidden.{md_sig_size, decrypt_bytes, xor_digest, encrypt_bytes}

abbrev pub IsByte : ℕ → Type 0
IsByte b = b < 256

-- Checked for all bytes.
twice_table : holds_below 256 (λ b. holds_below 256 (λ d. bit_xor (bit_xor b d) d == b)) ≡ true
unfolding holds_below
twice_table = refl

twice : (b d : ℕ) → b < 256 → d < 256 → bit_xor (bit_xor b d) d ≡ b
twice b d hb hd = (==_iff _ b).0 (
    holds_below_lem 256 (λ e. bit_xor (bit_xor b e) e == b) d
      (holds_below_lem 256 (λ c. holds_below 256 (λ e. bit_xor (bit_xor c e) e == c)) b twice_table
        hb)
      hd)

length-xor_digest :
    (digest : List ℕ) (cnt : ℕ) (bs : List ℕ) → length (xor_digest digest cnt bs) ≡ length bs
unfolding xor_digest
length-xor_digest digest cnt [] = refl
length-xor_digest digest cnt (b ∷ bs) = ap suc (length-xor_digest digest (cnt + 1) bs)

drop_all : (n : ℕ) (xs : List ℕ) → length xs ≤ n → drop n xs ≡ []
drop_all zero [] h = refl
drop_all zero (x ∷ xs) h = absurd (omega arith)
drop_all (suc n) [] h = refl
drop_all (suc n) (x ∷ xs) h = drop_all n xs (omega arith)

All-take : (n : ℕ) (xs : List ℕ) → All IsByte xs → All IsByte (take n xs)
All-take zero xs h = tt
All-take (suc n) [] h = tt
All-take (suc n) (x ∷ xs) (hx, h) = (hx, All-take n xs h)

All-drop : (n : ℕ) (xs : List ℕ) → All IsByte xs → All IsByte (drop n xs)
All-drop zero xs h = h
All-drop (suc n) [] h = tt
All-drop (suc n) (x ∷ xs) (hx, h) = All-drop n xs h

-- The saved segment is the whole of a segment of the cipher text.
saved_segment :
    (seg more saved : List ℕ)
    → length seg ≡ 16
    → length saved ≤ 16
    → take 16 (seg ++ more) ++ drop (length (take 16 (seg ++ more))) saved ≡ seg
saved_segment seg more saved whole small =
    let front : take 16 (seg ++ more) ≡ seg =
      ap (λ n. take n (seg ++ more)) (sym whole) ∙ take-append seg more in
    let none_left : drop (length seg) saved ≡ [] =
      drop_all (length seg) saved (omega (arith, small, whole)) in
    rw (front, none_left) (append-nil seg)

module _ (md5 : List ℕ → List ℕ) (secret : List ℕ)
    (bytes : (x : List ℕ) (k : ℕ) → get_or (md5 x) k 0 < 256) where
  -- The bytes of a segment behind the first.
  inside :
      (digest : List ℕ) (cnt : ℕ) (saved seg more : List ℕ)
      → ((k : ℕ) → get_or digest k 0 < 256)
      → All IsByte seg
      → cnt + 1 + length seg ≤ md_sig_size
      → decrypt_bytes md5 secret digest (cnt + 1) saved (xor_digest digest (cnt + 1) seg ++ more)
        ≡ seg ++ decrypt_bytes md5 secret digest (cnt + 1 + length seg) saved more
  unfolding xor_digest decrypt_bytes
  inside digest cnt saved [] more d h fits =
      ap (λ n. decrypt_bytes md5 secret digest n saved more) (omega arith)
  inside digest cnt saved (b ∷ seg) more d (hb, h) fits =
      let off : leb md_sig_size (cnt + 1) ≡ false = ground arith in
      let here : (cnt + 1 == 0) ≡ false = ground arith in
      let rest : cnt + 1 + length (b ∷ seg) ≡ cnt + 1 + 1 + length seg = omega arith in
      rw (off, here, twice b (get_or digest (cnt + 1) 0) hb (d (cnt + 1)), rest)
        (ap (◌∷◌ b) (inside digest (cnt + 1) saved seg more d h (omega (arith, fits))))

  first :
      (digest saved d : List ℕ) (cnt : ℕ) (b : ℕ) (seg more : List ℕ)
      → ((cnt ≡ 0) × (digest ≡ d)) ⊎ ((cnt ≡ 16) × (md5 (secret ++ saved) ≡ d))
      → length saved ≤ 16
      → length seg ≡ 15
      → (k : b < 256)
      → decrypt_bytes md5 secret digest cnt saved (xor_digest d 0 (b ∷ seg) ++ more)
        ≡ bit_xor (bit_xor b (get_or d 0 0)) (get_or d 0 0)
          ∷ decrypt_bytes md5 secret d 1 (xor_digest d 0 (b ∷ seg)) (xor_digest d 1 seg ++ more)
  unfolding xor_digest decrypt_bytes
  first digest saved d cnt b seg more (inl (z, e)) small whole k =
      rw (z, e)
        (ap
          (λ l.
            bit_xor (bit_xor b (get_or d 0 0)) (get_or d 0 0)
            ∷ decrypt_bytes md5 secret d 1 l (xor_digest d 1 seg ++ more))
          (saved_segment (bit_xor b (get_or d 0 0) ∷ xor_digest d 1 seg) more saved
            (omega (arith, length-xor_digest d 1 seg)) small))
  first digest saved d cnt b seg more (inr (z, e)) small whole k =
      rw (z, e)
        (ap
          (λ l.
            bit_xor (bit_xor b (get_or d 0 0)) (get_or d 0 0)
            ∷ decrypt_bytes md5 secret d 1 l (xor_digest d 1 seg ++ more))
          (saved_segment (bit_xor b (get_or d 0 0) ∷ xor_digest d 1 seg) more saved
            (omega (arith, length-xor_digest d 1 seg)) small))

  decrypt_bytes-nil :
      (digest saved : List ℕ) (cnt : ℕ) → decrypt_bytes md5 secret digest cnt saved [] ≡ []
  unfolding decrypt_bytes
  decrypt_bytes-nil digest saved cnt = refl

  -- A segment, whose digest is `d`.
  segment :
      (digest saved d : List ℕ) (cnt : ℕ) (seg more : List ℕ)
      → ((cnt ≡ 0) × (digest ≡ d)) ⊎ ((cnt ≡ 16) × (md5 (secret ++ saved) ≡ d))
      → length saved ≤ 16
      → ((k : ℕ) → get_or d k 0 < 256)
      → length seg ≡ 16
      → All IsByte seg
      → decrypt_bytes md5 secret digest cnt saved (xor_digest d 0 seg ++ more)
        ≡ seg ++ decrypt_bytes md5 secret d 16 (xor_digest d 0 seg) more
  segment digest saved d cnt [] more starts small db whole h = absurd (omega (arith, whole))
  segment digest saved d cnt (b ∷ seg) more starts small db whole (hb, h) =
      let rest : 0 + 1 + length seg ≡ 16 = omega (arith, whole) in
      first digest saved d cnt b seg more starts small (omega (arith, whole)) hb
      ∙ ap
          (λ x.
            x
            ∷ decrypt_bytes md5 secret d 1 (xor_digest d 0 (b ∷ seg)) (xor_digest d 1 seg ++ more))
          (twice b (get_or d 0 0) hb (db 0))
      ∙ ap (◌∷◌ b) (
          inside d 0 (xor_digest d 0 (b ∷ seg)) seg more db h (omega (arith, rest))
          ∙ ap (λ n. seg ++ decrypt_bytes md5 secret d n (xor_digest d 0 (b ∷ seg)) more) rest)

  pub decrypt_bytes-encrypt_bytes :
      (n : ℕ) (digest saved d : List ℕ) (cnt : ℕ) (plain : List ℕ)
      → ((cnt ≡ 0) × (digest ≡ d)) ⊎ ((cnt ≡ 16) × (md5 (secret ++ saved) ≡ d))
      → length saved ≤ 16
      → ((k : ℕ) → get_or d k 0 < 256)
      → length plain ≡ n * 16
      → All IsByte plain
      → decrypt_bytes md5 secret digest cnt saved (encrypt_bytes md5 secret d n plain) ≡ plain
  unfolding encrypt_bytes
  decrypt_bytes-encrypt_bytes zero digest saved d cnt [] starts small db whole h =
      decrypt_bytes-nil digest saved cnt
  decrypt_bytes-encrypt_bytes zero digest saved d cnt (x ∷ plain) starts small db whole h =
      absurd (omega (arith, whole))
  decrypt_bytes-encrypt_bytes (suc n) digest saved d cnt plain starts small db whole h =
      let p = take 16 plain in
      let cipher = xor_digest d 0 p in
      let lp : length p ≡ 16 = omega (arith, length-take 16 plain, whole) in
      segment digest saved d cnt p
        (encrypt_bytes md5 secret (md5 (secret ++ cipher)) n (drop 16 plain)) starts small db lp
        (All-take 16 plain h)
      ∙ ap (λ r. p ++ r)
          (decrypt_bytes-encrypt_bytes n d cipher (md5 (secret ++ cipher)) 16 (drop 16 plain)
            (inr (refl, refl)) (omega (arith, length-xor_digest d 0 p, lp))
            (bytes (secret ++ cipher)) (omega (arith, length-drop 16 plain, whole))
            (All-drop 16 plain h))
      ∙ take-append-drop 16 plain

pub length-encrypt_bytes :
    (md5 : List ℕ → List ℕ) (secret d : List ℕ) (n : ℕ) (plain : List ℕ)
    → length plain ≡ n * 16
    → length (encrypt_bytes md5 secret d n plain) ≡ n * 16
unfolding encrypt_bytes
length-encrypt_bytes md5 secret d zero plain whole = whole
length-encrypt_bytes md5 secret d (suc n) plain whole =
    let cipher = xor_digest d 0 (take 16 plain) in
    let rest = encrypt_bytes md5 secret (md5 (secret ++ cipher)) n (drop 16 plain) in
    omega (
      arith,
      length-append cipher rest,
      length-xor_digest d 0 (take 16 plain),
      length-take 16 plain,
      whole,
      length-encrypt_bytes md5 secret (md5 (secret ++ cipher)) n (drop 16 plain)
          (omega (arith, length-drop 16 plain, whole)),
    )
