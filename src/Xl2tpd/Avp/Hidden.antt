-- ===== src/Xl2tpd/Avp/Hidden.antt =====
-- xl2tpd/aaa.c: `decrypt_avp` and `encrypt_avp`. The state of MD5 between calls is not kept: each digest is of the bytes
-- given since `MD5Init`.
pub mod Segments
pub mod Header
pub mod RoundTrip
use zy_agf.Prelude.{
  ◌>>=◌, ℕ, ◌+◌, ◌-◌, ◌*◌, ◌/◌, ◌%◌, bit_or, bit_xor, zero, suc, Option, none, some, List, [], ◌∷◌,
  ◌++◌, ◌==◌, ltb, leb, if◌then◌else◌, get_or, length, take, drop,
}
use zy_agf.Pppoe.Tags.Scan.{encode16}
use zy_agf.Xl2tpd.Avp.{Env, Challenge, word, bytes_at, avp_hdr_size}

-- `MD_SIG_SIZE`
abbrev pub md_sig_size : ℕ
md_sig_size = 16

-- The loop over the cipher text: `cnt` is the place in the digest, `saved` the segment that it began with.
unfoldable pub decrypt_bytes : (List ℕ → List ℕ) → List ℕ → List ℕ → ℕ → List ℕ → List ℕ → List ℕ
decrypt_bytes md5 secret digest cnt saved [] = []
decrypt_bytes md5 secret digest cnt saved (b ∷ bs) =
    let full = leb md_sig_size cnt in
    let digest' = if full then md5 (secret ++ saved) else digest in
    let place = if full then 0 else cnt in
    let segment = take md_sig_size (b ∷ bs) in
    let saved' = if place == 0 then segment ++ drop (length segment) saved else saved in
    bit_xor b (get_or digest' place 0) ∷ decrypt_bytes md5 secret digest' (place + 1) saved' bs

-- The AVP in clear after its header with the length word `w`, and the length inside of it; nothing
-- where that length does not fit. The new header starts two bytes behind the old one.
unfoldable pub new_header : ℕ → List ℕ → Option (Option (List ℕ))
new_header w raw = do
  vendorid ← word raw 1
  attr ← word raw 2
  inner ← word raw 3
  let len = inner + avp_hdr_size
  let flags = w / 0x8000 * 0x8000 + w / 0x1000 % 4 * 0x1000
  (if ltb (w % 0x1000 - 2) len
      then some none
      else some (some (encode16 (len + flags) (encode16 vendorid (encode16 attr (drop 8 raw))))))

-- What `decrypt_avp` does with the random vector `vector`, the length `olen` and the length word `w`.
unfoldable pub decrypt_with :
    Env → Challenge → List ℕ → ℕ → ℕ → Option (List ℕ) → Option (Option (List ℕ))
decrypt_with env chal raw w olen none = some none
decrypt_with env chal raw w olen (some vector) = do
  cipher ← bytes_at raw 3 (olen - avp_hdr_size)
  let digest = env.md5 (take 2 (drop 4 raw) ++ (chal.secret ++ vector))
  let plain = decrypt_bytes env.md5 chal.secret digest 0 [] cipher
  new_header w (take avp_hdr_size raw ++ (plain ++ drop olen raw))

-- The inner `none` is the result -EINVAL.
unfoldable pub decrypt_avp : Env → Challenge → List ℕ → Option (Option (List ℕ))
decrypt_avp env chal raw = do w ← word raw 0; decrypt_with env chal raw w (w % 0x1000) chal.vector

-- `VECTOR_SIZE`
abbrev pub vector_size : ℕ
vector_size = 16

-- The loop over one segment, from the place `cnt` in the digest on.
unfoldable pub xor_digest : List ℕ → ℕ → List ℕ → List ℕ
xor_digest digest cnt [] = []
xor_digest digest cnt (b ∷ bs) = bit_xor b (get_or digest cnt 0) ∷ xor_digest digest (cnt + 1) bs

-- The loop over the segments, as many as there are, each with the digest of the one before.
unfoldable pub encrypt_bytes : (List ℕ → List ℕ) → List ℕ → List ℕ → ℕ → List ℕ → List ℕ
encrypt_bytes md5 secret digest zero plain = plain
encrypt_bytes md5 secret digest (suc segments) plain =
    let cipher = xor_digest digest 0 (take md_sig_size plain) in
    cipher ++ encrypt_bytes md5 secret (md5 (secret ++ cipher)) segments (drop md_sig_size plain)

-- What `encrypt_avp` does with the random vector `vector` to the memory from `new_hdr` on, where
-- `segments` segments are hidden.
unfoldable pub encrypt_with : Env → Challenge → List ℕ → ℕ → ℕ → List ℕ → Option (List ℕ)
encrypt_with env chal raw len segments vector = do
  w ← word raw 1
  vendorid ← word raw 2
  attr ← word raw 3
  body ← bytes_at raw 4 (segments * md_sig_size - 2)
  let size = segments * md_sig_size + avp_hdr_size
  let attr_bytes = encode16 attr []
  let digest = env.md5 (attr_bytes ++ (chal.secret ++ take vector_size vector))
  some (
      encode16 (bit_or size (bit_or (w / 0x1000 * 0x1000) 0x4000)) (
        encode16 vendorid (
          encode16 attr (
            encrypt_bytes env.md5 chal.secret digest segments (encode16 (len - avp_hdr_size) body)
            ++ drop size raw))))

-- The memory from `buf->start` on and `buf->len` after `encrypt_avp`, with `chal` for `t->chal_them`;
-- nothing where it reads a vector that is not there or leaves the memory. AVPs are shorter than 2^12.
unfoldable pub encrypt_avp : Env → Challenge → List ℕ → ℕ → ℕ → Option (List ℕ × ℕ)
encrypt_avp env chal mem buf_len len = do
  vector ← chal.vector
  let segments = (len - avp_hdr_size + 1) / 16 + 1
  let start = buf_len - len
  (if ltb (length vector) vector_size then none else do
    out ← encrypt_with env chal (drop start mem) len segments vector
    some (take start mem ++ out, start + (segments * md_sig_size + avp_hdr_size)))
