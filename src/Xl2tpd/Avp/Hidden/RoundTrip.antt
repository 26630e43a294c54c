-- ===== src/Xl2tpd/Avp/Hidden/RoundTrip.antt =====
-- xl2tpd/aaa.c: `decrypt_avp` on what `encrypt_avp` wrote.
use zy_agf.Prelude.{
  ◌>>=◌, ℕ, suc, ◌+◌, ◌-◌, ◌*◌, ◌/◌, ◌%◌, ◌≤◌, ◌<◌, Bool, true, false, Option, some, List, [], ◌∷◌,
  ◌++◌, ◌≡◌, inl, refl, sym, ◌∙◌, ap, arith, ltb, length, take, drop, get_or, length-append,
  append_assoc, drop-append, take-append, All,
}
use zy_agf.Pppoe.Tags.Scan.{encode16}
use zy_agf.Xl2tpd.Avp.{Env, Challenge, word, bytes_at}
use zy_agf.Xl2tpd.Avp.Deliver.{Plain, length_word, encode}
use zy_agf.Xl2tpd.Avp.Hidden.{
  decrypt_bytes, new_header, decrypt_with, decrypt_avp, encrypt_bytes, encrypt_with, encrypt_avp,
}
use zy_agf.Xl2tpd.Avp.Hidden.Segments.{IsByte, length-encrypt_bytes, decrypt_bytes-encrypt_bytes}
use zy_agf.Xl2tpd.Avp.Hidden.Header.{
  bits, hidden_word, hidden, read_behind, join, take_whole, new_header_lem,
}

module _ (env : Env) (chal : Challenge) (a : Plain) (pad behind v : List ℕ) (n : ℕ)
    (whole : length a.value + length pad + 2 ≡ n * 16) (short : n * 16 ≤ 1040)
    (vector : length v ≡ 16) where
  key : List ℕ
  key = env.md5 (encode16 a.attr [] ++ (chal.secret ++ v))

  cipher : List ℕ
  cipher = encrypt_bytes env.md5 chal.secret key n (encode16 (length a.value) (a.value ++ pad))

  length-cipher : length cipher ≡ n * 16
  unfolding cipher
  length-cipher =
      length-encrypt_bytes env.md5 chal.secret key n (encode16 (length a.value) (a.value ++ pad))
        (omega (arith, length-append a.value pad, whole))

  encrypt_with-encode :
      (s0 s1 : ℕ)
      → encrypt_with env chal (s0 ∷ s1 ∷ encode a (pad ++ behind)) (6 + length a.value) n v
        ≡ some (hidden a n cipher behind)
  unfolding encrypt_with word key cipher
  encrypt_with-encode s0 s1 =
      let raw = s0 ∷ s1 ∷ encode a (pad ++ behind) in
      let text = a.value ++ pad in
      let lt : length text ≡ n * 16 - 2 = omega (arith, length-append a.value pad, whole) in
      let read : bytes_at raw 4 (n * 16 - 2) ≡ some text =
        read_behind raw text behind (n * 16 - 2) 4 lt (sym (append_assoc a.value pad behind))
          (omega (arith, ap length (append_assoc a.value pad behind))) in
      let out : ℕ → ℕ → List ℕ → Option (List ℕ) = λ w l d. some (
        encode16 w (
          encode16 a.vendorid
            (encode16 a.attr (encrypt_bytes env.md5 chal.secret key n (encode16 l text) ++ d)))) in
      let size : n * 16 + 6 ≡ suc (suc (suc (suc (suc (suc (suc (suc (length text)))))))) =
        omega (arith, lt, whole) in
      let inner : 6 + length a.value - 6 ≡ length a.value = omega arith in
      let after : drop (n * 16 + 6) raw ≡ behind =
        ap (λ k. drop k raw) size
        ∙ ap (drop (length text)) (sym (append_assoc a.value pad behind))
        ∙ drop-append text behind in
      rw (join (length_word a), join a.vendorid, join a.attr, read, take_whole v vector)
        (ap (λ w. out w (6 + length a.value - 6) (drop (n * 16 + 6) raw))
            (hidden_word a.mandatory (6 + length a.value) (n * 16 + 6) (omega (arith, whole, short))
              (omega (arith, short)))
          ∙ ap (λ l. out (bits a.mandatory + 0x4000 + (n * 16 + 6)) l (drop (n * 16 + 6) raw)) inner
          ∙ ap (out (bits a.mandatory + 0x4000 + (n * 16 + 6)) (length a.value)) after)

  decrypt_with-hidden :
      decrypt_bytes env.md5 chal.secret key 0 [] cipher ≡ encode16 (length a.value) (a.value ++ pad)
      → decrypt_with env chal
          (hidden a n cipher behind)
          (bits a.mandatory + 0x4000 + (n * 16 + 6))
          (n * 16 + 6)
          (some v)
        ≡ some (some (encode a (pad ++ behind)))
  unfolding decrypt_with key
  decrypt_with-hidden clear =
      let raw = hidden a n cipher behind in
      let w = bits a.mandatory + 0x4000 + (n * 16 + 6) in
      let lc : length cipher ≡ n * 16 + 6 - 6 = omega (arith, length-cipher) in
      let read : bytes_at raw 3 (n * 16 + 6 - 6) ≡ some cipher =
        read_behind raw cipher behind (n * 16 + 6 - 6) 3 lc refl (omega arith) in
      let size : n * 16 + 6 ≡ suc (suc (suc (suc (suc (suc (length cipher)))))) =
        omega (arith, length-cipher) in
      let after : drop (n * 16 + 6) raw ≡ behind =
        ap (λ k. drop k raw) size ∙ drop-append cipher behind in
      rw (read) (
        ap
          (λ d.
            new_header w (take 6 raw ++ (decrypt_bytes env.md5 chal.secret key 0 [] cipher ++ d)))
          after
        ∙ ap (λ t. new_header w (take 6 raw ++ (t ++ behind))) clear
        ∙ new_header_lem a (w / 256) (w % 256) ((a.value ++ pad) ++ behind) n (omega (arith, whole))
            short
        ∙ ap (λ t. some (some (encode16 (length_word a) (encode16 a.vendorid (encode16 a.attr t)))))
            (append_assoc a.value pad behind))

  -- The cipher text in clear.
  uncovered :
      ((x : List ℕ) (k : ℕ) → get_or (env.md5 x) k 0 < 256)
      → length a.value ≤ 1017
      → All IsByte (a.value ++ pad)
      → decrypt_bytes env.md5 chal.secret key 0 [] cipher
        ≡ encode16 (length a.value) (a.value ++ pad)
  unfolding cipher key
  uncovered bytes small all =
      decrypt_bytes-encrypt_bytes env.md5 chal.secret bytes n key [] key 0
        (encode16 (length a.value) (a.value ++ pad)) (inl (refl, refl)) (omega arith)
        (bytes (encode16 a.attr [] ++ (chal.secret ++ v)))
        (omega (arith, length-append a.value pad, whole)) (omega (arith, small), (omega arith, all))

  encrypt_avp-encode :
      (s0 s1 : ℕ) (before : List ℕ)
      → chal.vector ≡ some v
      → (length a.value + 1) / 16 + 1 ≡ n
      → encrypt_avp env chal
          (before ++ (s0 ∷ s1 ∷ encode a (pad ++ behind)))
          (length before + (6 + length a.value))
          (6 + length a.value)
        ≡ some (before ++ hidden a n cipher behind, length before + (n * 16 + 6))
  unfolding encrypt_avp
  encrypt_avp-encode s0 s1 before vec segs =
      let raw = s0 ∷ s1 ∷ encode a (pad ++ behind) in
      let start : length before + (6 + length a.value) - (6 + length a.value) ≡ length before =
        omega arith in
      let inner : 6 + length a.value - 6 ≡ length a.value = omega arith in
      let enough : ltb (length v) 16 ≡ false = ground (arith, vector) in
      simp vec (
        rw
          (
            enough,
            start,
            inner,
            segs,
            drop-append before raw,
            take-append before raw,
            encrypt_with-encode s0 s1,
          )
          refl)

  decrypt_avp-hidden :
      chal.vector ≡ some v
      → decrypt_bytes env.md5 chal.secret key 0 [] cipher
        ≡ encode16 (length a.value) (a.value ++ pad)
      → decrypt_avp env chal (hidden a n cipher behind) ≡ some (some (encode a (pad ++ behind)))
  unfolding decrypt_avp word
  decrypt_avp-hidden vec clear =
      let size : (bits a.mandatory + 0x4000 + (n * 16 + 6)) % 0x1000 ≡ n * 16 + 6 =
        size_of a.mandatory in
      rw (join (bits a.mandatory + 0x4000 + (n * 16 + 6)), size)
        (ap
            (decrypt_with env chal (hidden a n cipher behind)
              (bits a.mandatory + 0x4000 + (n * 16 + 6)) (n * 16 + 6))
            vec
          ∙ decrypt_with-hidden clear)
    where
      size_of : (b : Bool) → (bits b + 0x4000 + (n * 16 + 6)) % 0x1000 ≡ n * 16 + 6
      size_of true = omega (arith, short)
      size_of false = omega (arith, short)

-- Every AVP of at most 1017 bytes, mandatory or not, with the spare bytes `s0` and `s1` in front of it and
-- `pad` behind it up to a whole segment, which `encrypt_avp` hides with a random vector of 16 bytes:
-- `decrypt_avp` with the same secret and vector gets the AVP back from what was written, the padding
-- behind it. The digests of MD5 consist of bytes, and so do the value and the padding.
pub decrypt_avp-encrypt_avp :
    (env : Env) (chal : Challenge) (a : Plain) (s0 s1 : ℕ) (before pad behind v : List ℕ)
    → ((x : List ℕ) (k : ℕ) → get_or (env.md5 x) k 0 < 256)
    → chal.vector ≡ some v
    → length v ≡ 16
    → length a.value ≤ 1017
    → length a.value + length pad + 2 ≡ ((length a.value + 1) / 16 + 1) * 16
    → All IsByte (a.value ++ pad)
    → (encrypt_avp env chal
          (before ++ (s0 ∷ s1 ∷ encode a (pad ++ behind)))
          (length before + (6 + length a.value))
          (6 + length a.value)
        >>= λ (mem, buf_len). decrypt_avp env chal (drop (length before) mem))
      ≡ some (some (encode a (pad ++ behind)))
decrypt_avp-encrypt_avp env chal a s0 s1 before pad behind v bytes vec lv small whole all =
    let n = (length a.value + 1) / 16 + 1 in
    let short : n * 16 ≤ 1040 = omega arith in
    let c = cipher env chal a pad behind v n whole short lv in
    let k = key env chal a pad behind v n whole short lv in
    let clear : decrypt_bytes env.md5 chal.secret k 0 [] c
        ≡ encode16 (length a.value) (a.value ++ pad) =
      uncovered env chal a pad behind v n whole short lv bytes small all in
    ap (λ o. o >>= λ (mem, buf_len). decrypt_avp env chal (drop (length before) mem))
      (encrypt_avp-encode env chal a pad behind v n whole short lv s0 s1 before vec refl)
    ∙ ap (decrypt_avp env chal) (drop-append before (hidden a n c behind))
    ∙ decrypt_avp-hidden env chal a pad behind v n whole short lv vec clear
