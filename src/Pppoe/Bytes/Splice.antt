-- ===== src/Pppoe/Bytes/Splice.antt =====
-- The bytes in use, as many as the length field says, after an insertion and after a removal.
use zy_agf.Prelude.{
  ℕ, zero, suc, ◌+◌, ◌-◌, ◌≤◌, Bool, some, List, [], ◌∷◌, ◌++◌, length, take, drop, ◌≡◌, ◌≢◌, refl,
  sym, ap, ap₂, ◌∙◌, arith, subst, append_assoc, length-append, length-take, length-drop,
  take-append, drop-append,
}
use zy_agf.Pppoe.Packet.{Packet, max_pppoe_payload, eth_jumbo_len}
use zy_agf.Pppoe.Tags.{Tag}
use zy_agf.Pppoe.Tags.Scan.{Scan, encode_tag, encode16}
use zy_agf.Pppoe.Tags.Parse.{Reads, Scan-cons}
use zy_agf.Pppoe.Bytes.{insert_bytes, remove_bytes, add_tag, memmove, memcpy}

-- The bytes in use.
abbrev pub contents : Packet → List ℕ
contents p = take p.length p.payload

take_of_length : (n : ℕ) (xs ys : List ℕ) → n ≡ length xs → take n (xs ++ ys) ≡ xs
take_of_length n xs ys e = rw e (take-append xs ys)

drop_of_length : (n : ℕ) (xs ys : List ℕ) → n ≡ length xs → drop n (xs ++ ys) ≡ ys
drop_of_length n xs ys e = rw e (drop-append xs ys)

take-take : (m n : ℕ) (xs : List ℕ) → m ≤ n → take m (take n xs) ≡ take m xs
take-take zero n xs h = refl
take-take (suc m) zero xs h = absurd (omega arith)
take-take (suc m) (suc n) [] h = refl
take-take (suc m) (suc n) (x ∷ xs) h = ap (◌∷◌ x) (take-take m n xs (omega arith))

drop-take : (m n : ℕ) (xs : List ℕ) → drop m (take n xs) ≡ take (n - m) (drop m xs)
drop-take zero n xs = ap (λ k. take k xs) (omega arith)
drop-take (suc m) zero xs = ap (λ k. take k (drop (suc m) xs)) {x = 0} (omega arith)
drop-take (suc m) (suc n) [] = nil_case (suc n - suc m)
  where
    nil_case : (k : ℕ) → [] ≡ take {A = ℕ} k []
    nil_case zero = refl
    nil_case (suc k) = refl
drop-take (suc m) (suc n) (x ∷ xs) = drop-take m n xs ∙ ap (λ k. take k (drop m xs)) (omega arith)

take_prefix : (m : ℕ) (xs ys : List ℕ) → m ≤ length xs → take m (xs ++ ys) ≡ take m xs
take_prefix zero xs ys h = refl
take_prefix (suc m) [] ys h = absurd (omega arith)
take_prefix (suc m) (x ∷ xs) ys h = ap (◌∷◌ x) (take_prefix m xs ys (omega arith))

-- The array after an insertion, in its four parts.
insert-parts :
    (payload bytes : List ℕ) (loc plen : ℕ)
    → loc ≤ plen
    → length bytes + plen ≤ length payload
    → (rest : List ℕ) × (memcpy (memmove payload (loc + length bytes) loc (plen - loc)) loc bytes
        ≡ take loc payload ++ (bytes ++ (take (plen - loc) (drop loc payload) ++ rest)))
insert-parts payload bytes loc plen h fits =
    let to = loc + length bytes in
    let tail = take (plen - loc) (drop loc payload) ++ drop (to + (plen - loc)) payload in
    (
      drop (to + (plen - loc)) payload,
      ap₂ (λ a b. a ++ (bytes ++ b))
          (take_prefix loc (take to payload) tail (omega (arith, length-take to payload))
            ∙ take-take loc to payload (omega arith))
          (drop_of_length to (take to payload) tail (omega (arith, length-take to payload))),
    )

-- Where the array is whole, inserting puts the bytes at the location, keeps those in front and moves those
-- behind.
pub insert_bytes-contents :
    (p : Packet) (loc : ℕ) (bytes : List ℕ) {p' : Packet}
    → length p.payload ≡ eth_jumbo_len
    → insert_bytes p loc bytes ≡ some p'
    → contents p' ≡ take loc (contents p) ++ (bytes ++ drop loc (contents p))
unfolding insert_bytes
insert_bytes-contents p loc bytes {p'} whole e =
    let len = length bytes in
    let ok : (loc ≤ p.length)
        × (len + p.length ≤ max_pppoe_payload)
        × (p'.length ≡ p.length + len)
        × (p'.payload ≡ memcpy (memmove p.payload (loc + len) loc (p.length - loc)) loc bytes) =
      ground arith in
    let (rest, parts) = insert-parts p.payload bytes loc p.length ok.0 (omega arith) in
    let front = take loc p.payload in
    let back = take (p.length - loc) (drop loc p.payload) in
    rw (ok.2, ok.3, parts)
      (ap (take (p.length + len)) (regroup front bytes back rest)
        ∙ take_of_length (p.length + len) (front ++ (bytes ++ back)) rest (
            omega (
              arith,
              length-append front (bytes ++ back),
              length-append bytes back,
              length-take loc p.payload,
              length-take (p.length - loc) (drop loc p.payload),
              length-drop loc p.payload,
            ))
        ∙ ap₂ (λ a b. a ++ (bytes ++ b)) (sym (take-take loc p.length p.payload ok.0))
            (sym (drop-take loc p.length p.payload)))
  where
    regroup : (a b c d : List ℕ) → a ++ (b ++ (c ++ d)) ≡ (a ++ (b ++ c)) ++ d
    regroup a b c d = rw (append_assoc a (b ++ c) d, append_assoc b c d)

-- Where the array is whole and the length within it, removing takes out the bytes at the location and
-- keeps all others in order.
pub remove_bytes-contents :
    (p : Packet) (loc len : ℕ) {p' : Packet}
    → length p.payload ≡ eth_jumbo_len
    → p.length ≤ eth_jumbo_len
    → remove_bytes p loc len ≡ some p'
    → contents p' ≡ take loc (contents p) ++ drop (loc + len) (contents p)
unfolding remove_bytes
remove_bytes-contents p loc len {p'} whole small e =
    let ok : (loc + len ≤ p.length)
        × (p'.length ≡ p.length - len)
        × (p'.payload ≡ memmove p.payload loc (loc + len) (p.length - loc - len)) =
      ground arith in
    let front = take loc p.payload in
    let back = take (p.length - loc - len) (drop (loc + len) p.payload) in
    rw (ok.1, ok.2)
      (ap (take (p.length - len))
          (sym (append_assoc front back (drop (loc + (p.length - loc - len)) p.payload)))
        ∙ take_of_length (p.length - len) (front ++ back)
            (drop (loc + (p.length - loc - len)) p.payload)
            (omega (
              arith,
              length-append front back,
              length-take loc p.payload,
              length-take (p.length - loc - len) (drop (loc + len) p.payload),
              length-drop (loc + len) p.payload,
            ))
        ∙ ap₂ ◌++◌ (sym (take-take loc p.length p.payload (omega arith))) (
            ap (λ k. take k (drop (loc + len) p.payload)) (omega arith)
            ∙ sym (drop-take (loc + len) p.length p.payload)))

-- A tag, not of type 0, that is added to a packet with its array whole is its first tag; the tags that
-- were there follow it.
pub add_tag-Reads :
    (p : Packet) (t : Tag) {p' : Packet} {ts : List Tag} {ok : Bool}
    → length p.payload ≡ eth_jumbo_len
    → t.type ≢ 0
    → Reads p ts ok
    → add_tag p t ≡ some p'
    → Reads p' (t ∷ ts) ok
unfolding add_tag
add_tag-Reads p t {p'} {ts} {ok} whole nz s e =
    subst (λ b. Scan b (t ∷ ts) ok)
      (sym (insert_bytes-contents p 0 (encode_tag t []) whole e ∙ joined))
      (Scan-cons t (contents p) nz s)
  where
    joined : encode_tag t [] ++ contents p ≡ encode_tag t (contents p)
    joined =
        ap (λ r. encode16 t.type (encode16 (length t.value) r))
          (append_assoc t.value [] (contents p))
