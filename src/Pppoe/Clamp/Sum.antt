-- ===== src/Pppoe/Clamp/Sum.antt =====
-- The sum of `computeTCPChecksum` without its wrap, and what replacing a word does to it.
use zy_agf.Prelude.{
  ℕ, zero, suc, ◌+◌, ◌*◌, ◌%◌, ◌^◌, ◌≤◌, ◌<◌, Option, none, some, List, [], ◌∷◌, get_elem?, ◌>>=◌,
  ◌≡◌, ◌≢◌, refl, sym, ap, ◌∙◌, arith, Option-cases, inl, inr,
}
use zy_agf.Pppoe.Framing.RoundTrip.{Bytes}
use zy_agf.Pppoe.Clamp.{set_at, word_at, sum_from}

pub get-set :
    (b : List ℕ) (i v : ℕ) (b' : List ℕ) → set_at b i v ≡ some b' → get_elem? b' i ≡ some v
unfolding set_at
get-set [] i v b' e = cc
get-set (x ∷ b) zero v b' e = let q : v ∷ b ≡ b' = cc in rw (sym q) refl
get-set (x ∷ b) (suc i) v b' e = under (set_at b i v) b' (λ c q. get-set b i v c q) e
  where
    under :
        (o : Option (List ℕ)) (b' : List ℕ)
        → ((c : List ℕ) → o ≡ some c → get_elem? c i ≡ some v)
        → (o >>= λ ys. some (x ∷ ys)) ≡ some b'
        → get_elem? b' (suc i) ≡ some v
    under none b' k e = cc
    under (some c) b' k e = let q : x ∷ c ≡ b' = cc in rw (sym q) (k c refl)

pub get-set_other :
    (b : List ℕ) (i j v : ℕ) (b' : List ℕ)
    → set_at b i v ≡ some b'
    → j ≢ i
    → get_elem? b' j ≡ get_elem? b j
unfolding set_at
get-set_other [] i j v b' e ne = cc
get-set_other (x ∷ b) zero zero v b' e ne = absurd (ne refl)
get-set_other (x ∷ b) zero (suc j) v b' e ne = let q : v ∷ b ≡ b' = cc in rw (sym q) refl
get-set_other (x ∷ b) (suc i) j v b' e ne =
    under (set_at b i v) j b' (λ c k q d. get-set_other b i k v c q d) e ne
  where
    under :
        (o : Option (List ℕ)) (j : ℕ) (b' : List ℕ)
        → ((c : List ℕ) (k : ℕ) → o ≡ some c → k ≢ i → get_elem? c k ≡ get_elem? b k)
        → (o >>= λ ys. some (x ∷ ys)) ≡ some b'
        → j ≢ suc i
        → get_elem? b' j ≡ get_elem? (x ∷ b) j
    under none j b' k e d = cc
    under (some c) zero b' k e d = let q : x ∷ c ≡ b' = cc in rw (sym q) refl
    under (some c) (suc j) b' k e d =
        let q : x ∷ c ≡ b' = cc in rw (sym q) (k c j refl (omega arith))

-- The sum of the words, and of the byte that is left over.
unfoldable pub total : List ℕ → ℕ → ℕ → Option ℕ
total b addr zero = some 0
total b addr (suc zero) = get_elem? b addr
total b addr (suc (suc n)) = word_at b addr >>= λ w. total b (addr + 2) n >>= λ t. some (w + t)

-- `sum_from` adds it, with its wrap.
pub sum_from-total :
    (n : ℕ) (b : List ℕ) (addr sum : ℕ)
    → sum < 2 ^ 32
    → sum_from b addr n sum ≡ (total b addr n >>= λ t. some ((sum + t) % 2 ^ 32))
unfolding sum_from total
sum_from-total zero b addr sum h = ap (λ s. some s) (omega arith)
sum_from-total (suc zero) b addr sum h = refl
sum_from-total (suc (suc n)) b addr sum h = elim (Option-cases (word_at b addr)) [
  | inl e ↦ rw e refl
  | inr (w, e) ↦ rw e (
      sum_from-total n b (addr + 2) ((sum + w) % 2 ^ 32) (omega arith)
      ∙ again (total b (addr + 2) n) w)
]
  where
    again :
        (o : Option ℕ) (w : ℕ)
        → (o >>= λ t. some (((sum + w) % 2 ^ 32 + t) % 2 ^ 32))
          ≡ ((o >>= λ t. some (w + t)) >>= λ t. some ((sum + t) % 2 ^ 32))
    again none w = refl
    again (some t) w = ap (λ s. some s) (omega arith)

-- A word that was 0 becomes `v`, and nothing else changes.
pub record Replaced (b b' : List ℕ) (i v : ℕ) : Type 0 where
  pub old : word_at b i ≡ some 0
  pub new : word_at b' i ≡ some v
  pub same : (j : ℕ) → j ≢ i → j ≢ i + 1 → get_elem? b' j ≡ get_elem? b j

pub word_at-same :
    (b b' : List ℕ) (a : ℕ)
    → get_elem? b' a ≡ get_elem? b a
    → get_elem? b' (a + 1) ≡ get_elem? b (a + 1)
    → word_at b' a ≡ word_at b a
unfolding word_at
word_at-same b b' a e f = rw (e, f) refl

total-same :
    (n : ℕ) (b b' : List ℕ) (addr : ℕ)
    → ((j : ℕ) → addr ≤ j → get_elem? b' j ≡ get_elem? b j)
    → total b' addr n ≡ total b addr n
unfolding total
total-same zero b b' addr k = refl
total-same (suc zero) b b' addr k = k addr (omega arith)
total-same (suc (suc n)) b b' addr k =
    rw
      (
        word_at-same b b' addr (k addr (omega arith)) (k (addr + 1) (omega arith)),
        total-same n b b' (addr + 2) (λ j h. k j (omega arith)),
      )
      refl

-- A sum of two results.
added :
    (x y : Option ℕ) (t : ℕ)
    → (x >>= λ w. y >>= λ u. some (w + u)) ≡ some t
    → (w : ℕ) × (u : ℕ) × (x ≡ some w) × (y ≡ some u) × (w + u ≡ t)
added none y t e = cc
added (some w) none t e = cc
added (some w) (some u) t e = (w, u, refl, refl, cc)

pub total-Replaced :
    (n k : ℕ) (b b' : List ℕ) (addr i v t : ℕ)
    → Replaced b b' i v
    → addr + 2 * k ≡ i
    → 2 * k + 2 ≤ n
    → total b addr n ≡ some t
    → total b' addr n ≡ some (t + v)
unfolding total
total-Replaced zero k b b' addr i v t r e h q = absurd (omega arith)
total-Replaced (suc zero) k b b' addr i v t r e h q = absurd (omega arith)
total-Replaced (suc (suc n)) zero b b' addr i v t r e h q =
    let at : addr ≡ i = omega arith in
    let (w, u, x, y, z) = added (word_at b addr) (total b (addr + 2) n) t q in
    let rest = total-same n b b' (addr + 2) (λ j l. r.same j (omega arith) (omega arith)) in
    let here : word_at b' addr ≡ some v = ap (word_at b') at ∙ r.new in
    let none_before : some w ≡ some 0 = sym x ∙ ap (word_at b) at ∙ r.old in
    rw (here, rest, y) (ap (λ s. some s) (sum_of w u t v none_before z))
  where
    sum_of : (w u t v : ℕ) → some w ≡ some 0 → w + u ≡ t → v + u ≡ t + v
    sum_of w u t v e f = let g : w ≡ 0 = cc in omega arith
total-Replaced (suc (suc n)) (suc k) b b' addr i v t r e h q =
    let (w, u, x, y, z) = added (word_at b addr) (total b (addr + 2) n) t q in
    let rest = total-Replaced n k b b' (addr + 2) i v u r (omega arith) (omega arith) y in
    let here =
      word_at-same b b' addr (r.same addr (omega arith) (omega arith))
        (r.same (addr + 1) (omega arith) (omega arith)) in
    rw (here, x, rest) (ap (λ s. some s) (omega arith))

pub byte_bound : (b : List ℕ) (i c : ℕ) → Bytes b → get_elem? b i ≡ some c → c < 256
byte_bound [] i c h e = cc
byte_bound (x ∷ b) zero c h e = let q : x ≡ c = cc in omega (arith, h.0)
byte_bound (x ∷ b) (suc i) c h e = byte_bound b i c h.1 e

pub word_bound : (b : List ℕ) (i w : ℕ) → Bytes b → word_at b i ≡ some w → w < 65536
unfolding word_at
word_bound b i w h e =
    bytes (get_elem? b i) (get_elem? b (i + 1)) (λ c q. byte_bound b i c h q)
      (λ c q. byte_bound b (i + 1) c h q) e
  where
    bytes :
        (x y : Option ℕ)
        → ((c : ℕ) → x ≡ some c → c < 256)
        → ((c : ℕ) → y ≡ some c → c < 256)
        → (x >>= λ lo. y >>= λ hi. some (lo + 256 * hi)) ≡ some w
        → w < 65536
    bytes none y f g e = cc
    bytes (some lo) none f g e = cc
    bytes (some lo) (some hi) f g e =
        let q : lo + 256 * hi ≡ w = cc in omega (arith, f lo refl, g hi refl)

-- The sum of `n` bytes is at most 2^15 for each.
pub total_bound :
    (n : ℕ) (b : List ℕ) (addr t : ℕ) → Bytes b → total b addr n ≡ some t → t ≤ 32768 * n
unfolding total
total_bound zero b addr t h e = let q : 0 ≡ t = cc in omega arith
total_bound (suc zero) b addr t h e = let q = byte_bound b addr t h e in omega arith
total_bound (suc (suc n)) b addr t h e =
    let (w, u, x, y, z) = added (word_at b addr) (total b (addr + 2) n) t e in
    omega (arith, word_bound b addr w h x, total_bound n b (addr + 2) u h y)
