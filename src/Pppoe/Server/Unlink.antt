-- ===== src/Pppoe/Server/Unlink.antt =====
-- Taking a session out of a list that is held by pointers.
use zy_agf.Prelude.{
  ℕ, true, false, Option, none, some, List, [], ◌∷◌, ◌==◌, ◌≡◌, refl, sym, ap, subst, arith,
  Bool-cases, ==_iff, some_inj, inl, inr,
}
use zy_agf.Pppoe.Relay.{update, remove}
use zy_agf.Pppoe.Relay.Table.{elem}
use zy_agf.Pppoe.Relay.Invariant.Lists.{nodup}
use zy_agf.Pppoe.Server.Lists.{Chain, Chain-update, before}

pub before_missing :
    (s : ℕ) (prev : Option ℕ) (xs : List ℕ) → elem s xs ≡ false → before s prev xs ≡ none
before_missing s prev [] e = refl
before_missing s prev (x ∷ xs) e =
    let other : (x == s) ≡ false = ground arith in
    rw other (before_missing s (some x) xs (ground arith))

pub before_found :
    (s x : ℕ) (xs : List ℕ) → elem s xs ≡ true → (q : ℕ) × (before s (some x) xs ≡ some (some q))
before_found s x [] e = cc
before_found s x (y ∷ ys) e = elim (Bool-cases (y == s)) [
  | inl h ↦ (x, rw h refl)
  | inr h ↦ let (q, ih) = before_found s y ys (ground arith) in (q, rw h ih)
]

-- What stands before a member of the rest of a list is in the list.
pub elem-before :
    (s x q : ℕ) (xs : List ℕ) → before s (some x) xs ≡ some (some q) → elem q (x ∷ xs) ≡ true
elem-before s x q [] e = cc
elem-before s x q (y ∷ ys) e = elim (Bool-cases (y == s)) [
  | inl h ↦
      let f : some (some x) ≡ some (some q) = rw h at e in
      let g : x ≡ q = some_inj (some_inj f) in rw g (ground arith)
  | inr h ↦ let ih = elem-before s y q ys (rw h at e) in ground arith
]

-- A pointer past the member in place of the one to it.
pub Chain-remove_later :
    (next : ℕ → Option ℕ) (s x q : ℕ) (xs : List ℕ)
    → Chain next (next x) xs
    → nodup (x ∷ xs) ≡ true
    → before s (some x) xs ≡ some (some q)
    → Chain (update next q (next s)) (update next q (next s) x) (remove s xs)
unfolding remove
Chain-remove_later next s x q [] c u e = cc
Chain-remove_later next s x q (y ∷ ys) c u e = elim (Bool-cases (y == s)) [
  | inl h ↦
      let f : some (some x) ≡ some (some q) = rw h at e in
      let g : x ≡ q = some_inj (some_inj f) in
      let same : (q == x) ≡ true = (==_iff q x).1 (sym g) in
      let at_s : y ≡ s = (==_iff y s).0 h in
      let rest =
        Chain-update next (next y) ys q (next s) (subst (λ k. elem k ys ≡ false) g (ground arith))
          c.1 in
      rw (h, same) (subst (λ o. Chain (update next q (next s)) o ys) (ap next at_s) rest)
  | inr h ↦
      let e' : before s (some y) ys ≡ some (some q) = rw h at e in
      let ih = Chain-remove_later next s y q ys c.1 (ground arith) e' in
      let m = elem-before s y q ys e' in
      let other : (q == x) ≡ false = apart m u in rw (h, other) (c.0, ih)
]
  where
    apart : elem q (y ∷ ys) ≡ true → nodup (x ∷ y ∷ ys) ≡ true → (q == x) ≡ false
    apart m u = elim (Bool-cases (q == x)) [
      | inr other ↦ other
      | inl same ↦
          let g : q ≡ x = (==_iff q x).0 same in
          let m' : elem x (y ∷ ys) ≡ true = subst (λ k. elem k (y ∷ ys) ≡ true) g m in ground arith
    ]
