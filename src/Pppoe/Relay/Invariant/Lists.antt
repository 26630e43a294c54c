-- ===== src/Pppoe/Relay/Invariant/Lists.antt =====
-- Membership in a list of indices, and what unlinking a node does to it.
use zy_agf.Prelude.{
  ℕ, ◌+◌, Bool, true, false, not, ◌&&◌, List, [], ◌∷◌, ◌==◌, length, ◌≡◌, refl, arith,
}
use zy_agf.Pppoe.Relay.{remove}
use zy_agf.Pppoe.Relay.Table.{elem}

-- Whether no index stands twice in a list.
abbrev pub nodup : List ℕ → Bool
nodup [] = true
nodup (x ∷ xs) = not (elem x xs) && nodup xs

pub elem-remove :
    (x y : ℕ) (xs : List ℕ) → nodup xs ≡ true → elem x (remove y xs) ≡ (elem x xs && not (y == x))
unfolding remove
elem-remove x y [] h = refl
elem-remove x y (z ∷ xs) h = ground (arith, elem-remove x y xs)

pub elem-remove_idle : (x y : ℕ) (xs : List ℕ) → elem x xs ≡ false → elem x (remove y xs) ≡ false
unfolding remove
elem-remove_idle x y [] h = refl
elem-remove_idle x y (z ∷ xs) h = ground (arith, elem-remove_idle x y xs)

pub nodup-remove : (y : ℕ) (xs : List ℕ) → nodup xs ≡ true → nodup (remove y xs) ≡ true
unfolding remove
nodup-remove y [] h = refl
nodup-remove y (z ∷ xs) h = ground (arith, nodup-remove y xs, elem-remove_idle z y xs)

pub length-remove : (y : ℕ) (xs : List ℕ) → elem y xs ≡ true → length (remove y xs) + 1 ≡ length xs
unfolding remove
length-remove y [] h = cc
length-remove y (z ∷ xs) h = ground (arith, length-remove y xs)
