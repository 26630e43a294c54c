-- ===== src/Pppoe/Server/Alloc.antt =====
-- `pppoe_alloc_session` and `pppoe_free_session` against a queue of free sessions and a list of busy ones.
use zy_agf.Prelude.{
  ℕ, ◌+◌, true, false, Option, none, some, List, [], ◌∷◌, ◌==◌, if◌then◌else◌, length, ◌≡◌, refl,
  sym, ap, subst, ◌∙◌, arith, Bool-cases, ==_iff, inl, inr,
}
use zy_agf.Pppoe.Relay.{update}
use zy_agf.Pppoe.Relay.Table.{elem}
use zy_agf.Pppoe.Relay.Invariant.Lists.{nodup}
use zy_agf.Pppoe.Server.{Pool, is_session, no_eth, pppoe_alloc_session}
use zy_agf.Pppoe.Server.Lists.{Chain, Chain-update, last_of, elem-last_of}

-- The pool holds the free sessions and the busy ones in these orders.
pub record Holds (p : Pool) (free busy : List ℕ) : Type 0 where
  pub free_chain : Chain p.next p.free_sessions free
  pub busy_chain : Chain p.next p.busy_sessions busy
  pub last : p.last_free ≡ last_of free
  pub free_once : nodup free ≡ true
  pub busy_once : nodup busy ≡ true
  pub apart : (s : ℕ) → elem s free ≡ true → elem s busy ≡ false
  pub count : p.num_active ≡ length busy

alloc_last :
    (s : ℕ) (free : List ℕ)
    → nodup (s ∷ free) ≡ true
    → (if is_session s (last_of (s ∷ free)) then none else last_of (s ∷ free)) ≡ last_of free
alloc_last s [] u = let h : (s == s) ≡ true = (==_iff s s).1 refl in rw h refl
alloc_last s (x ∷ xs) u = later (last_of (x ∷ xs)) (λ l e. elem-last_of (x ∷ xs) l e)
  where
    later :
        (o : Option ℕ)
        → ((l : ℕ) → o ≡ some l → elem l (x ∷ xs) ≡ true)
        → (if is_session s o then none else o) ≡ o
    later none k = refl
    later (some l) k = elim (Bool-cases (l == s)) [
      | inr other ↦ rw other refl
      | inl same ↦
          let q : l ≡ s = (==_iff l s).0 same in
          let m : elem s (x ∷ xs) ≡ true = subst (λ y. elem y (x ∷ xs) ≡ true) q (k l refl) in
          absurd (let f : true ≡ false = ground arith in cc)
    ]

self : (s : ℕ) → (s == s) ≡ true
self s = (==_iff s s).1 refl

-- The pool without its first free session, which is put in front of the busy ones.
abbrev allocated : ℕ → ℕ → Pool → Pool
allocated time ses p = record {
  next = update p.next ses p.busy_sessions;
  free_sessions = p.next ses;
  last_free = if is_session ses p.last_free then none else p.last_free;
  busy_sessions = some ses;
  num_active = p.num_active + 1;
  slots =
      update p.slots ses
        (record { pid = 0; eth = no_eth; flags = 0; start_time = time; requested_mtu = 0 });
}

allocated-Holds :
    (time : ℕ) (p : Pool) (s : ℕ) (free busy : List ℕ)
    → Holds p (s ∷ free) busy
    → Holds (allocated time s p) free (s ∷ busy)
allocated-Holds time p s free busy h =
    let first : elem s (s ∷ free) ≡ true = rw (self s) refl in
    let not_busy : elem s busy ≡ false = h.apart s first in
    let once = h.free_once in
    let not_free : elem s free ≡ false = ground arith in
    record {
      free_chain = Chain-update p.next (p.next s) free s p.busy_sessions not_free h.free_chain.1;
      busy_chain = (
        refl,
        rw (self s)
            (Chain-update p.next p.busy_sessions busy s p.busy_sessions not_busy h.busy_chain),
      );
      last = ap (λ o. if is_session s o then none else o) h.last ∙ alloc_last s free once;
      free_once = ground arith;
      busy_once = let b = h.busy_once in ground arith;
      apart = λ x e.
          let a = h.apart x (ground arith) in
          elim (Bool-cases (s == x)) [
            | inr other ↦ rw (other, a) refl
            | inl same ↦
                let q : s ≡ x = (==_iff s x).0 same in
                let n : elem x free ≡ false = subst (λ y. elem y free ≡ false) q not_free in
                absurd (let f : true ≡ false = sym e ∙ n in cc)
          ];
      count = omega (arith, h.count);
    }

-- `pppoe_alloc_session` takes the first session of the queue of free ones and puts it in front of the busy
-- ones.
pub pppoe_alloc_session-Holds :
    (time : ℕ) (p : Pool) (s : ℕ) (free busy : List ℕ)
    → Holds p (s ∷ free) busy
    → (p' : Pool) × (pppoe_alloc_session time p ≡ (some s, p')) × Holds p' free (s ∷ busy)
unfolding pppoe_alloc_session
pppoe_alloc_session-Holds time p s free busy h = (
  allocated time s p,
  rw (pppoe_alloc_session, h.free_chain.0) refl,
  allocated-Holds time p s free busy h,
)

-- With no free session the result is NULL, and nothing changes.
pub pppoe_alloc_session-none :
    (time : ℕ) (p : Pool) (busy : List ℕ) → Holds p [] busy → pppoe_alloc_session time p ≡ (none, p)
unfolding pppoe_alloc_session
pppoe_alloc_session-none time p busy h = full p.free_sessions h.free_chain
  where
    full :
        (o : Option ℕ)
        → o ≡ none
        → ◌≡◌ {A = Option ℕ × Pool}
            (elim o [ none ↦ (none, p) | some ses ↦ (some ses, allocated time ses p) ])
            (none, p)
    full none e = refl
    full (some ses) e = cc
