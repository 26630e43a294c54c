-- ===== src/Xl2tpd/Addresses/InUse.antt =====
-- The table of addresses is a set.
use zy_agf.Prelude.{
  ℕ, ◌%◌, Bool, false, not, ◌&&◌, ◌||◌, List, [], ◌∷◌, ◌==◌, ◌≡◌, refl, sym, ap, ◌∙◌, arith,
  Bool-cases, ==_iff, inl, inr,
}
use zy_agf.Xl2tpd.Addresses.{
  Table, addr_hash_size, put, init_addr, in_chain, ip_used, reserve_addr, unchain, unreserve_addr,
}

in_chain-unchain :
    (a b : ℕ) (chain : List ℕ) → in_chain b (unchain a chain) ≡ (not (a == b) && in_chain b chain)
unfolding in_chain unchain
in_chain-unchain a b [] = ground arith
in_chain-unchain a b (x ∷ chain) = ground (arith, in_chain-unchain a b chain)

-- A lookup where one chain is replaced.
in_chain-put :
    (t : Table) (a b : ℕ) (chain : List ℕ) (f : Bool)
    → (a % addr_hash_size ≡ b % addr_hash_size → in_chain b chain ≡ f)
    → (((a % addr_hash_size) == (b % addr_hash_size)) ≡ false → ip_used t b ≡ f)
    → ip_used (put t (a % addr_hash_size) chain) b ≡ f
unfolding ip_used
in_chain-put t a b chain f here there =
    elim (Bool-cases ((a % addr_hash_size) == (b % addr_hash_size))) [
      | inl e ↦ rw e (here ((==_iff (a % addr_hash_size) (b % addr_hash_size)).0 e))
      | inr e ↦ rw e (there e)
    ]

-- Where the hash values differ, so do the addresses.
differ : (a b : ℕ) → ((a % addr_hash_size) == (b % addr_hash_size)) ≡ false → (a == b) ≡ false
differ a b e = elim (Bool-cases (a == b)) [
  | inl same ↦
      let q : a ≡ b = (==_iff a b).0 same in
      let r : (a % addr_hash_size) ≡ (b % addr_hash_size) = ap (λ x. x % addr_hash_size) q in
      ground arith
  | inr other ↦ other
]

-- After `reserve_addr` an address is in use if it is the one reserved, or was in use before.
pub ip_used-reserve_addr :
    (t : Table) (a b : ℕ) → ip_used (reserve_addr a t) b ≡ (a == b || ip_used t b)
unfolding reserve_addr
ip_used-reserve_addr t a b = elim (Bool-cases (ip_used t a)) [
  | inl u ↦ rw u (elim (Bool-cases (a == b)) [
    | inl e ↦ let q : a ≡ b = (==_iff a b).0 e in rw e (sym (ap (ip_used t) q) ∙ u)
    | inr e ↦ rw e refl
  ])
  | inr u ↦ rw u (
      in_chain-put t a b (a ∷ t (a % addr_hash_size)) (a == b || ip_used t b)
        (λ q. unfold in_chain ip_used in rw q (ground arith)) (λ q. rw (differ a b q) refl))
]

-- After `unreserve_addr` an address is in use if it was before and is not the one given.
pub ip_used-unreserve_addr :
    (t : Table) (a b : ℕ) → ip_used (unreserve_addr a t) b ≡ (not (a == b) && ip_used t b)
unfolding unreserve_addr
ip_used-unreserve_addr t a b =
    in_chain-put t a b (unchain a (t (a % addr_hash_size))) (not (a == b) && ip_used t b)
      (λ q. unfold ip_used in rw q (in_chain-unchain a b (t (b % addr_hash_size))))
      (λ q. rw (differ a b q) refl)

-- The calls on the table.
pub data Op : Type 0 where
  reserve unreserve : ℕ → Op

abbrev pub run : List Op → Table → Table
run [] t = t
run (reserve a ∷ ops) t = run ops (reserve_addr a t)
run (unreserve a ∷ ops) t = run ops (unreserve_addr a t)

-- The same calls on a set of addresses.
abbrev pub run_set : List Op → (ℕ → Bool) → ℕ → Bool
run_set [] s = s
run_set (reserve a ∷ ops) s = run_set ops (λ b. a == b || s b)
run_set (unreserve a ∷ ops) s = run_set ops (λ b. not (a == b) && s b)

run_set-ext :
    (ops : List Op) (s s' : ℕ → Bool) (b : ℕ)
    → ((x : ℕ) → s x ≡ s' x)
    → run_set ops s b ≡ run_set ops s' b
run_set-ext [] s s' b e = e b
run_set-ext (reserve a ∷ ops) s s' b e = run_set-ext ops _ _ b (λ x. ap (λ u. a == x || u) (e x))
run_set-ext (unreserve a ∷ ops) s s' b e =
    run_set-ext ops _ _ b (λ x. ap (λ u. not (a == x) && u) (e x))

run-run_set :
    (ops : List Op) (t : Table) (b : ℕ) → ip_used (run ops t) b ≡ run_set ops (ip_used t) b
run-run_set [] t b = refl
run-run_set (reserve a ∷ ops) t b =
    run-run_set ops (reserve_addr a t) b ∙ run_set-ext ops _ _ b (ip_used-reserve_addr t a)
run-run_set (unreserve a ∷ ops) t b =
    run-run_set ops (unreserve_addr a t) b ∙ run_set-ext ops _ _ b (ip_used-unreserve_addr t a)

nothing_used : (b : ℕ) → ip_used init_addr b ≡ false
unfolding ip_used init_addr in_chain
nothing_used b = refl

-- After any run of `reserve_addr` and `unreserve_addr` from the start, an address is in use exactly if it is
-- in the set that the same calls make by adding and taking away elements of the empty set.
pub run-refines :
    (ops : List Op) (a : ℕ) → ip_used (run ops init_addr) a ≡ run_set ops (λ b. false) a
run-refines ops a =
    run-run_set ops init_addr a ∙ run_set-ext ops (ip_used init_addr) (λ b. false) a nothing_used
