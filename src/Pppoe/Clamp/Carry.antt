-- ===== src/Pppoe/Clamp/Carry.antt =====
-- The carries of the sum, added in until there is none.
use zy_agf.Prelude.{
  some_inj, ℕ, suc, ◌+◌, ◌-◌, ◌/◌, ◌%◌, ◌^◌, ◌≤◌, ◌<◌, true, some, ◌==◌, ◌≡◌, ◌≢◌, refl, sym, ap,
  ◌∙◌, arith, Bool-cases, inl, inr, ==_iff, subst,
}
use zy_agf.Pppoe.Clamp.{fold_carry}

-- The sum with the carries added in.
pub record Folded (s f : ℕ) : Type 0 where
  pub small : f ≤ 65535
  pub same : f % 65535 ≡ s % 65535
  pub below : f ≤ s
  pub zero_only : f ≡ 0 → s ≡ 0

fold_carry_done :
    (fuel s : ℕ) → s < 65536 → (f : ℕ) × (fold_carry (suc fuel) s ≡ some f) × Folded s f
unfolding fold_carry
fold_carry_done fuel s h =
    let q : (s / 65536 == 0) ≡ true = (==_iff (s / 65536) 0).1 (omega arith) in
    (
      s,
      rw q refl,
      record { small = omega arith; same = refl; below = omega arith; zero_only = λ e. e },
    )

fold_carry_step :
    (fuel s : ℕ)
    → ((f : ℕ) × (fold_carry (suc fuel) (s % 65536 + s / 65536) ≡ some f)
        × Folded (s % 65536 + s / 65536) f)
    → (f : ℕ) × (fold_carry (suc (suc fuel)) s ≡ some f) × Folded s f
unfolding fold_carry
fold_carry_step fuel s (f, e, k) = elim (Bool-cases (s / 65536 == 0)) [
  | inl z ↦
      fold_carry_done (suc fuel) s
        (let q : s / 65536 ≡ 0 = (==_iff (s / 65536) 0).0 z in omega arith)
  | inr c ↦ (
    f,
    rw (fold_carry, c) e,
    record {
      small = k.small;
      same = k.same ∙ omega arith;
      below = omega (arith, k.below);
      zero_only = λ z. let q = k.zero_only z in omega arith;
    },
  )
]

fold_once : (s : ℕ) → s < 2 ^ 32 → s % 65536 + s / 65536 ≤ 131070
fold_once s h = omega arith

fold_twice : (s : ℕ) → s ≤ 131070 → s % 65536 + s / 65536 < 65536
fold_twice s h = omega arith

-- Three rounds are enough for 32 bits.
pub fold_carry-Folded : (s : ℕ) → s < 2 ^ 32 → (f : ℕ) × (fold_carry 4 s ≡ some f) × Folded s f
fold_carry-Folded s h =
    let s1 = s % 65536 + s / 65536 in
    fold_carry_step 2 s (
      fold_carry_step 1 s1
        (fold_carry_done 1 (s1 % 65536 + s1 / 65536) (fold_twice s1 (fold_once s h))))

full_sum : (s f g : ℕ) → Folded s f → Folded (s + (65535 - f)) g → g ≡ 65535
full_sum s f g k l =
    let positive : g ≢ 0 = λ z. let q = l.zero_only z in omega (arith, k.below) in
    omega (arith, k.small, k.same, k.below, l.small, l.same, positive)

-- A sum with its complement added folds to all ones.
pub fold_carry_complement :
    (s f : ℕ)
    → s + 65535 < 2 ^ 32
    → fold_carry 4 s ≡ some f
    → fold_carry 4 (s + (65535 - f)) ≡ some 65535
fold_carry_complement s f h e =
    let (f', q, k) = fold_carry-Folded s (omega arith) in
    let (g, r, l) = fold_carry-Folded (s + (65535 - f)) (omega arith) in
    let same : f' ≡ f = some_inj (sym q ∙ e) in
    r ∙ ap (λ x. some x) (full_sum s f g (subst (λ x. Folded s x) same k) l)
