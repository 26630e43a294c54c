-- ===== src/Pppoe/Clamp/Search.antt =====
-- The writes of `clampMSS` keep bytes, and its search finds an option behind where it starts.
use zy_agf.Prelude.{
  ℕ, zero, suc, ◌+◌, ◌≤◌, ◌<◌, some, List, [], ◌∷◌, ◌==◌, ltb, if◌then◌else◌, get_elem?, >>=_some,
  ◌≡◌, inl, inr, subst, arith, Bool-cases,
}
use zy_agf.Pppoe.Framing.RoundTrip.{Bytes}
use zy_agf.Pppoe.Clamp.{set_at, bogus, at, find_mss}

pub Bytes-set_at :
    (b : List ℕ) (i v : ℕ) (b' : List ℕ) → Bytes b → v < 256 → set_at b i v ≡ some b' → Bytes b'
unfolding set_at
Bytes-set_at [] i v b' h k e = cc
Bytes-set_at (x ∷ b) zero v b' h k e = let q : v ∷ b ≡ b' = cc in subst Bytes q (k, h.1)
Bytes-set_at (x ∷ b) (suc i) v b' h k e =
    let (c, q, r) = >>=_some (set_at b i v) (λ ys. some (x ∷ ys)) e in
    let s : x ∷ c ≡ b' = cc in subst Bytes s (h.0, Bytes-set_at b i v c h.1 k q)

pub find_mss_from :
    (fuel : ℕ) (b : List ℕ) (opt end n : ℕ) → find_mss fuel b opt end ≡ some (at n) → opt ≤ n
unfolding find_mss
find_mss_from zero b opt end n e = cc
find_mss_from (suc fuel) b opt end n e = elim (Bool-cases (ltb opt end)) [
  | inr c ↦ let q = rw (find_mss, c) at e in cc
  | inl c ↦
      let (kind, q, e1) = >>=_some (get_elem? b opt) _ (rw (find_mss, c) at e) in
      elim (Bool-cases (kind == 0)) [
        | inl z ↦ let r = rw z at e1 in cc
        | inr z ↦ elim (Bool-cases (kind == 1)) [
          | inl o ↦
              let r = find_mss_from fuel b (opt + 1) end n (rw (z, o) at e1) in omega (arith, r)
          | inr o ↦
              let (len, q2, e2) = >>=_some (get_elem? b (opt + 1)) _ (rw (z, o) at e1) in
              option kind len (λ q3. find_mss_from fuel b (opt + len) end n q3) e2
        ]
      ]
]
  where
    option :
        (kind len : ℕ)
        → (find_mss fuel b (opt + len) end ≡ some (at n) → opt + len ≤ n)
        → (if kind == 2
            then if len == 4 then some (at opt) else some bogus
            else if ltb len 2
            then some bogus
            else find_mss fuel b (opt + len) end)
          ≡ some (at n)
        → opt ≤ n
    option kind len rest e = elim (Bool-cases (kind == 2)) [
      | inl two ↦ elim (Bool-cases (len == 4)) [
        | inl four ↦
            let r : some (at opt) ≡ some (at n) = rw (two, four) at e in
            let s : opt ≡ n = cc in omega arith
        | inr four ↦ let r = rw (two, four) at e in cc
      ]
      | inr two ↦ elim (Bool-cases (ltb len 2)) [
        | inl less ↦ let r = rw (two, less) at e in cc
        | inr less ↦ let r = rest (rw (two, less) at e) in omega (arith, r)
      ]
    ]
