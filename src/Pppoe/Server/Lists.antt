-- ===== src/Pppoe/Server/Lists.antt =====
-- Lists that are held by pointers.
use zy_agf.Prelude.{
  ℕ, zero, suc, ◌<◌, true, false, Option, none, some, List, [], ◌∷◌, ◌++◌, ◌==◌, if◌then◌else◌,
  length, ◌≡◌, refl, subst, arith, Bool-cases, ==_iff, some_inj, inl, inr,
}
use zy_agf.Pppoe.Relay.{update}
use zy_agf.Pppoe.Relay.Table.{elem}
use zy_agf.Pppoe.Relay.Invariant.Lists.{nodup}
use zy_agf.Pppoe.Server.{find_busy}

-- The pointers from a head on reach the members of a list in its order, and then NULL.
abbrev pub Chain : (ℕ → Option ℕ) → Option ℕ → List ℕ → Type 0
Chain next head [] = head ≡ none
Chain next head (x ∷ xs) = (head ≡ some x) × Chain next (next x) xs

abbrev pub last_of : List ℕ → Option ℕ
last_of [] = none
last_of (x ∷ []) = some x
last_of (x ∷ y ∷ ys) = last_of (y ∷ ys)

pub Chain-update :
    (next : ℕ → Option ℕ) (head : Option ℕ) (xs : List ℕ) (y : ℕ) (v : Option ℕ)
    → elem y xs ≡ false
    → Chain next head xs
    → Chain (update next y v) head xs
Chain-update next head [] y v e c = c
Chain-update next head (x ∷ xs) y v e c =
    let other : (y == x) ≡ false = ground arith in
    (
      c.0,
      subst (λ o. Chain (update next y v) o xs) (rw other refl)
          (Chain-update next (next x) xs y v (ground arith) c.1),
    )

pub elem-last_of : (xs : List ℕ) (l : ℕ) → last_of xs ≡ some l → elem l xs ≡ true
elem-last_of [] l e = cc
elem-last_of (x ∷ []) l e = let q : x ≡ l = some_inj e in rw q (ground arith)
elem-last_of (x ∷ y ∷ ys) l e = let h = elem-last_of (y ∷ ys) l e in rw h (ground arith)

pub last_of-append : (xs : List ℕ) (s : ℕ) → last_of (xs ++ (s ∷ [])) ≡ some s
last_of-append [] s = refl
last_of-append (x ∷ []) s = refl
last_of-append (x ∷ y ∷ ys) s = last_of-append (y ∷ ys) s

-- A session put behind the last one.
pub Chain-append :
    (next : ℕ → Option ℕ) (head : Option ℕ) (xs : List ℕ) (l s : ℕ)
    → last_of xs ≡ some l
    → nodup xs ≡ true
    → (l == s) ≡ false
    → next s ≡ none
    → Chain next head xs
    → Chain (update next l (some s)) head (xs ++ (s ∷ []))
Chain-append next head [] l s e u n z c = cc
Chain-append next head (x ∷ []) l s e u n z c =
    let q : x ≡ l = some_inj e in
    let here : (l == x) ≡ true = rw q (ground arith) in (c.0, (rw here refl, rw n z))
Chain-append next head (x ∷ y ∷ ys) l s e u n z c =
    let rest = Chain-append next (next x) (y ∷ ys) l s e (ground arith) n z c.1 in
    let inside = elem-last_of (y ∷ ys) l e in
    let other : (l == x) ≡ false = apart (==_iff l x) inside u in
    (c.0, subst (λ o. Chain (update next l (some s)) o ((y ∷ ys) ++ (s ∷ []))) (rw other refl) rest)
  where
    apart :
        (((l == x) ≡ true) → l ≡ x) × (l ≡ x → (l == x) ≡ true)
        → elem l (y ∷ ys) ≡ true
        → nodup (x ∷ y ∷ ys) ≡ true
        → (l == x) ≡ false
    apart i m u = elim (Bool-cases (l == x)) [
      | inr other ↦ other
      | inl same ↦
          let q : l ≡ x = i.0 same in
          let m' : elem x (y ∷ ys) ≡ true = subst (λ k. elem k (y ∷ ys) ≡ true) q m in ground arith
    ]

-- What stands before a member, where it is in the list.
abbrev pub before : ℕ → Option ℕ → List ℕ → Option (Option ℕ)
before s prev [] = none
before s prev (x ∷ xs) = if x == s then some prev else before s (some x) xs

pub find_busy-before :
    (next : ℕ → Option ℕ) (s fuel : ℕ) (prev head : Option ℕ) (xs : List ℕ)
    → Chain next head xs
    → length xs < fuel
    → find_busy next s fuel prev head ≡ some (before s prev xs)
unfolding find_busy
find_busy-before next s zero prev head xs c h = absurd (omega arith)
find_busy-before next s (suc fuel) prev head [] c h = rw c refl
find_busy-before next s (suc fuel) prev head (x ∷ xs) c h =
    let rest = find_busy-before next s fuel (some x) (next x) xs c.1 (omega arith) in
    rw (c.0, rest) (elim (Bool-cases (x == s)) [ inl e ↦ rw e refl | inr e ↦ rw e refl ])
