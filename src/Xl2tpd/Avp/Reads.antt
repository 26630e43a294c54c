-- ===== src/Xl2tpd/Avp/Reads.antt =====
-- xl2tpd/avp.c: reads that stay inside the bytes that are there.
use zy_agf.Prelude.{
  ℕ, zero, suc, ◌+◌, ◌*◌, ◌≤◌, ◌<◌, some, List, [], ◌∷◌, ◌≡◌, refl, arith, le→leb, get_elem?,
  length, take, drop,
}
use zy_agf.Xl2tpd.Avp.{word, bytes_at}

pub get_elem?-inside :
    {A : Type 0} (xs : List A) (i : ℕ) → i < length xs → (x : A) × (get_elem? xs i ≡ some x)
get_elem?-inside [] i h = absurd (omega arith)
get_elem?-inside (x ∷ xs) zero h = (x, refl)
get_elem?-inside (x ∷ xs) (suc i) h = get_elem?-inside xs i (omega arith)

pub word-inside : (raw : List ℕ) (k : ℕ) → 2 * k + 1 < length raw → (v : ℕ) × (word raw k ≡ some v)
unfolding word
word-inside raw k h =
    let (hi, p) = get_elem?-inside raw (2 * k) (omega arith) in
    let (lo, q) = get_elem?-inside raw (2 * k + 1) h in (hi * 256 + lo, rw (p, q) refl)

pub bytes_at-inside :
    (raw : List ℕ) (k n : ℕ)
    → 2 * k + n ≤ length raw
    → bytes_at raw k n ≡ some (take n (drop (2 * k) raw))
unfolding bytes_at
bytes_at-inside raw k n h = rw (le→leb (2 * k + n) (length raw) h) refl
