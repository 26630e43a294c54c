-- ===== src/Pppoe/Server/Release.antt =====
-- `pppoe_free_session` on a pool that holds its lists.
use zy_agf.Prelude.{
  ℕ, ◌-◌, ◌<◌, true, false, not, ◌&&◌, ◌||◌, Option, none, some, List, [], ◌∷◌, ◌++◌, ◌==◌, length,
  ◌≡◌, refl, sym, ap, subst, ◌∙◌, arith, Bool-cases, ==_iff, inl, inr,
}
use zy_agf.Pppoe.Relay.{update, remove}
use zy_agf.Pppoe.Relay.Table.{elem}
use zy_agf.Pppoe.Relay.Invariant.Lists.{nodup, elem-remove, nodup-remove, length-remove}
use zy_agf.Pppoe.Server.{Pool, no_eth, find_busy, unlink_busy, link_free, pppoe_free_session}
use zy_agf.Pppoe.Server.Lists.{
  Chain, Chain-update, Chain-append, last_of, last_of-append, elem-last_of, before,
  find_busy-before,
}
use zy_agf.Pppoe.Server.Unlink.{before_missing, before_found, elem-before, Chain-remove_later}
use zy_agf.Pppoe.Server.Alloc.{Holds}

-- The busy list without a session of it, and the free list as it was.
record Unlinked (p : Pool) (s : ℕ) (free busy : List ℕ) : Type 0 where
  free_chain : Chain p.next p.free_sessions free
  busy_chain : Chain p.next p.busy_sessions (remove s busy)
  last : p.last_free ≡ last_of free

unlink_first :
    (p : Pool) (s : ℕ) (free busy : List ℕ) (x : ℕ)
    → Holds p free (x ∷ busy)
    → (x == s) ≡ true
    → Unlinked (unlink_busy s none p) s free (x ∷ busy)
unfolding unlink_busy remove
unlink_first p s free busy x h e =
    let q : x ≡ s = (==_iff x s).0 e in
    record {
      free_chain = h.free_chain;
      busy_chain = rw e (subst (λ o. Chain p.next o busy) (ap p.next q) h.busy_chain.1);
      last = h.last;
    }

unlink_later :
    (p : Pool) (s : ℕ) (free busy : List ℕ) (x q : ℕ)
    → Holds p free (x ∷ busy)
    → (x == s) ≡ false
    → before s (some x) busy ≡ some (some q)
    → Unlinked (unlink_busy s (some q) p) s free (x ∷ busy)
unfolding unlink_busy remove
unlink_later p s free busy x q h e b =
    let c = Chain-remove_later p.next s x q busy h.busy_chain.1 h.busy_once b in
    let m = elem-before s x q busy b in
    record {
      free_chain =
          Chain-update p.next p.free_sessions free q (p.next s) (not_free q m) h.free_chain;
      busy_chain = rw e (h.busy_chain.0, c);
      last = h.last;
    }
  where
    not_free : (y : ℕ) → elem y (x ∷ busy) ≡ true → elem y free ≡ false
    not_free y m = elim (Bool-cases (elem y free)) [
      | inr other ↦ other
      | inl f ↦ let a = h.apart y f in absurd (let t : true ≡ false = sym m ∙ a in cc)
    ]

last_of-some : (x : ℕ) (xs : List ℕ) → (l : ℕ) × (last_of (x ∷ xs) ≡ some l)
last_of-some x [] = (x, refl)
last_of-some x (y ∷ ys) = last_of-some y ys

-- The session put at the end of the free list.
relinked :
    (p : Pool) (s : ℕ) (free busy : List ℕ) (o : Option ℕ)
    → Unlinked p s free busy
    → o ≡ last_of free
    → nodup free ≡ true
    → elem s free ≡ false
    → elem s (remove s busy) ≡ false
    → ((l : ℕ) → elem l free ≡ true → elem l (remove s busy) ≡ false)
    → let p' = link_free s o p in
      Chain p'.next p'.free_sessions (free ++ (s ∷ []))
      × Chain p'.next p'.busy_sessions (remove s busy)
      × (p'.last_free ≡ last_of (free ++ (s ∷ [])))
unfolding link_free
relinked p s [] busy none u e once out gone apart =
    let self : (s == s) ≡ true = (==_iff s s).1 refl in
    (
      (refl, rw self refl),
      Chain-update p.next p.busy_sessions (remove s busy) s none gone u.busy_chain,
      refl,
    )
relinked p s [] busy (some l) u e once out gone apart = cc
relinked p s (x ∷ xs) busy none u e once out gone apart =
    let (l, q) = last_of-some x xs in absurd (let t = e ∙ q in cc)
relinked p s (x ∷ xs) busy (some l) u e once out gone apart =
    let self : (s == s) ≡ true = (==_iff s s).1 refl in
    let m = elem-last_of (x ∷ xs) l (sym e) in
    let other : (l == s) ≡ false = apart_last m in
    let f = Chain-update p.next p.free_sessions (x ∷ xs) s none out u.free_chain in
    let b = Chain-update p.next p.busy_sessions (remove s busy) s none gone u.busy_chain in
    (
      Chain-append (update p.next s none) p.free_sessions (x ∷ xs) l s (sym e) once other
          (rw self refl) f,
      Chain-update (update p.next s none) p.busy_sessions (remove s busy) l (some s) (apart l m) b,
      sym (last_of-append (x ∷ xs) s),
    )
  where
    apart_last : elem l (x ∷ xs) ≡ true → (l == s) ≡ false
    apart_last m = elim (Bool-cases (l == s)) [
      | inr other ↦ other
      | inl same ↦
          let q : l ≡ s = (==_iff l s).0 same in
          let m' : elem s (x ∷ xs) ≡ true = subst (λ y. elem y (x ∷ xs) ≡ true) q m in
          absurd (let t : true ≡ false = sym m' ∙ out in cc)
    ]

-- What is set at the end.
abbrev released : ℕ → Pool → Pool
released ses p = record p {
  num_active = p.num_active - 1;
  slots = update p.slots ses (record (p.slots ses) { pid = 0; eth = no_eth; flags = 0 });
}

pub elem-append : (xs : List ℕ) (s x : ℕ) → elem x (xs ++ (s ∷ [])) ≡ (elem x xs || s == x)
elem-append [] s x = ground arith
elem-append (y ∷ xs) s x = rw (elem-append xs s x) (ground arith)

nodup-append :
    (xs : List ℕ) (s : ℕ) → nodup xs ≡ true → elem s xs ≡ false → nodup (xs ++ (s ∷ [])) ≡ true
nodup-append [] s u o = refl
nodup-append (x ∷ xs) s u o =
    let ih = nodup-append xs s (ground arith) (ground arith) in
    let e = elem-append xs s x in
    let other : (s == x) ≡ false = flip x s (ground arith) in rw (e, ih, other) (ground arith)
  where
    flip : (x s : ℕ) → (x == s) ≡ false → (s == x) ≡ false
    flip x s h = ground arith

link_free-num_active :
    (s : ℕ) (o : Option ℕ) (p : Pool) → (link_free s o p).num_active ≡ p.num_active
unfolding link_free
link_free-num_active s none p = refl
link_free-num_active s (some l) p = refl

released-Holds :
    (p p1 : Pool) (s : ℕ) (free busy : List ℕ)
    → Holds p free busy
    → elem s busy ≡ true
    → Unlinked p1 s free busy
    → p1.num_active ≡ p.num_active
    → Holds (released s (link_free s p1.last_free p1)) (free ++ (s ∷ [])) (remove s busy)
released-Holds p p1 s free busy h m u n =
    let out = not_free in
    let taken = λ (x : ℕ). elem-remove x s busy h.busy_once in
    let gone : elem s (remove s busy) ≡ false = taken s ∙ rw ((==_iff s s).1 refl) (ground arith) in
    let apart' : (x : ℕ) → elem x free ≡ true → elem x (remove s busy) ≡ false =
      λ x e. taken x ∙ rw (h.apart x e) refl in
    let (f, b, l) = relinked p1 s free busy p1.last_free u u.last h.free_once out gone apart' in
    record {
      free_chain = f;
      busy_chain = b;
      last = l;
      free_once = nodup-append free s h.free_once out;
      busy_once = nodup-remove s busy h.busy_once;
      apart = λ x e. again x (sym (elem-append free s x) ∙ e) (apart' x) (taken x);
      count =
          omega (arith, link_free-num_active s p1.last_free p1, n, h.count, length-remove s busy m);
    }
  where
    not_free : elem s free ≡ false
    not_free = elim (Bool-cases (elem s free)) [
      | inr other ↦ other
      | inl f ↦ let a = h.apart s f in absurd (let t : true ≡ false = sym m ∙ a in cc)
    ]

    again :
        (x : ℕ)
        → (elem x free || s == x) ≡ true
        → (elem x free ≡ true → elem x (remove s busy) ≡ false)
        → elem x (remove s busy) ≡ (elem x busy && not (s == x))
        → elem x (remove s busy) ≡ false
    again x e k t = elim (Bool-cases (elem x free)) [
      | inl f ↦ k f
      | inr f ↦ let same : (s == x) ≡ true = ground arith in t ∙ rw same (ground arith)
    ]

unlink_busy-num_active :
    (s : ℕ) (o : Option ℕ) (p : Pool) → (unlink_busy s o p).num_active ≡ p.num_active
unfolding unlink_busy
unlink_busy-num_active s none p = refl
unlink_busy-num_active s (some q) p = refl

-- What stands before a busy session, and the pool without it.
unlinked :
    (p : Pool) (s : ℕ) (free busy : List ℕ)
    → Holds p free busy
    → elem s busy ≡ true
    → (prev : Option ℕ) × (before s none busy ≡ some prev)
      × Unlinked (unlink_busy s prev p) s free busy
unlinked p s free [] h m = cc
unlinked p s free (x ∷ busy) h m = elim (Bool-cases (x == s)) [
  | inl e ↦ (none, rw e refl, unlink_first p s free busy x h e)
  | inr e ↦
      let (q, b) = before_found s x busy (ground arith) in
      (some q, rw (e, b) refl, unlink_later p s free busy x q h e b)
]

-- `pppoe_free_session` of a busy session takes it from the busy ones and puts it at the end of the queue of
-- free ones; fuel above the number of busy sessions is enough.
pub pppoe_free_session-Holds :
    (fuel s : ℕ) (p : Pool) (free busy : List ℕ)
    → Holds p free busy
    → elem s busy ≡ true
    → length busy < fuel
    → (p' : Pool) × (pppoe_free_session fuel s p ≡ some (true, p'))
      × Holds p' (free ++ (s ∷ [])) (remove s busy)
unfolding pppoe_free_session
pppoe_free_session-Holds fuel s p free busy h m enough =
    let (prev, b, u) = unlinked p s free busy h m in
    let p1 = unlink_busy s prev p in
    let walk : find_busy p.next s fuel none p.busy_sessions ≡ some (some prev) =
      find_busy-before p.next s fuel none p.busy_sessions busy h.busy_chain enough
      ∙ ap (λ o. some o) b in
    (
      released s (link_free s p1.last_free p1),
      rw (pppoe_free_session, walk) refl,
      released-Holds p p1 s free busy h m u (unlink_busy-num_active s prev p),
    )

-- A session that is not busy is not freed: the result is -1, and nothing changes.
pub pppoe_free_session_idle :
    (fuel s : ℕ) (p : Pool) (free busy : List ℕ)
    → Holds p free busy
    → elem s busy ≡ false
    → length busy < fuel
    → pppoe_free_session fuel s p ≡ some (false, p)
unfolding pppoe_free_session
pppoe_free_session_idle fuel s p free busy h m enough =
    let walk : find_busy p.next s fuel none p.busy_sessions ≡ some none =
      find_busy-before p.next s fuel none p.busy_sessions busy h.busy_chain enough
      ∙ ap (λ o. some o) (before_missing s none busy m) in
    rw (pppoe_free_session, walk) refl
