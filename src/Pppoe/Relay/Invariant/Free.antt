-- ===== src/Pppoe/Relay/Invariant/Free.antt =====
-- `freeSession` of an active session keeps the table well formed.
use zy_agf.Prelude.{
  ℕ, ◌-◌, Bool, true, false, not, ◌&&◌, ◌||◌, ◌∷◌, ◌==◌, ◌≡◌, ◌≢◌, inl, inr, refl, sym, ap, ◌∙◌,
  arith, Bool-cases, ==_iff,
}
use zy_agf.Pppoe.Relay.{Relay, remove, unhash, free_session}
use zy_agf.Pppoe.Relay.Table.{elem}
use zy_agf.Pppoe.Relay.Invariant.{home, live, IsPair, IsCounted, IsValid}
use zy_agf.Pppoe.Relay.Invariant.Lists.{
  nodup, elem-remove, nodup-remove, length-remove, elem-remove_idle,
}
use zy_agf.Pppoe.Relay.Invariant.Live.{live-ac, live-client}

elem-unhash :
    (r : Relay) (x h b : ℕ)
    → nodup (r.buckets b) ≡ true
    → elem h ((unhash x r).buckets b) ≡ (elem h (r.buckets b) && not (home r x == b && x == h))
unfolding unhash
elem-unhash r x h b u = elim (Bool-cases (home r x == b)) [
  | inl e ↦
      let same : home r x ≡ b = (==_iff (home r x) b).0 e in
      rw (e, same) (elem-remove h x (r.buckets b) u)
  | inr e ↦ rw e (ground arith)
]

nodup-unhash :
    (r : Relay) (x b : ℕ) → nodup (r.buckets b) ≡ true → nodup ((unhash x r).buckets b) ≡ true
unfolding unhash
nodup-unhash r x b u = elim (Bool-cases (home r x == b)) [
  | inl e ↦
      let same : home r x ≡ b = (==_iff (home r x) b).0 e in
      rw (e, same) (nodup-remove x (r.buckets b) u)
  | inr e ↦ rw e u
]

-- Two entries less, in an abstract table.
two_less :
    (at : ℕ → ℕ) (was : ℕ → Bool) (ah ch h b : ℕ)
    → (((at h == b && was h) && not (at ah == b && ah == h)) && not (at ch == b && ch == h))
      ≡ (at h == b && (was h && (not (ah == h) && not (ch == h))))
two_less at was ah ch h b = ground arith

module _ (n : ℕ) (r : Relay) (s : ℕ) (v : IsValid n r) (act : elem s r.active_sessions ≡ true) where
  -- The table without the session, its entries still in their chains.
  listed : Relay
  listed = record r {
    active_sessions = remove s r.active_sessions;
    free_sessions = s ∷ r.free_sessions;
  }

  live-listed :
      (h : ℕ)
      → live listed h
        ≡ (live r h && (not ((r.sessions s).ac_hash == h) && not ((r.sessions s).client_hash == h)))
  unfolding listed
  live-listed h =
      let p = v.pair s act in
      let out = elem-remove (r.hashes h).ses s r.active_sessions v.counted.active_once in
      rw out (elim (Bool-cases (s == (r.hashes h).ses)) [
        | inl e ↦
            let same : (r.hashes h).ses ≡ s = sym ((==_iff s (r.hashes h).ses).0 e) in
            rw (same, act) (ground arith)
        | inr e ↦
            let a : ((r.sessions s).ac_hash == h) ≡ false = ground (arith, p.ac_ses) in
            let c : ((r.sessions s).client_hash == h) ≡ false = ground (arith, p.client_ses) in
            rw (e, a, c) (ground arith)
      ])

  -- The same with both entries out of their chains.
  unlinked : Relay
  unfolding listed unhash
  unlinked = unhash (r.sessions s).client_hash (unhash (r.sessions s).ac_hash listed)

  unlinked_chained :
      (b h : ℕ) → elem h (unlinked.buckets b) ≡ (home unlinked h == b && live unlinked h)
  unfolding unlinked listed
  unlinked_chained b h =
      let ah = (r.sessions s).ac_hash in
      let ch = (r.sessions s).client_hash in
      let once = nodup-unhash listed ah b (v.chain_once b) in
      let at : home (unhash ah listed) ch ≡ home r ch = unfold unhash in refl in
      elem-unhash (unhash ah listed) ch h b once
      ∙ rw (elem-unhash listed ah h b (v.chain_once b), v.chained b h, at)
          (two_less (home r) (live r) ah ch h b
            ∙ ap (λ l. home r h == b && l) (sym (live-listed h)))

  unlinked_chain_once : (b : ℕ) → nodup (unlinked.buckets b) ≡ true
  unfolding unlinked listed
  unlinked_chain_once b =
      nodup-unhash (unhash (r.sessions s).ac_hash listed) (r.sessions s).client_hash b
        (nodup-unhash listed (r.sessions s).ac_hash b (v.chain_once b))

  freed-IsPair :
      (x : ℕ)
      → elem x unlinked.active_sessions ≡ true
      → IsPair n (record unlinked { num_sessions = unlinked.num_sessions - 1 }) x
  unfolding unlinked listed
  freed-IsPair x e =
      let out = elem-remove x s r.active_sessions v.counted.active_once in
      let p = v.pair x (ground arith) in
      record {
        ac_ses = p.ac_ses;
        client_ses = p.client_ses;
        ac_peer = p.ac_peer;
        client_peer = p.client_peer;
        two = p.two;
        ac_interface = p.ac_interface;
        client_interface = p.client_interface;
      }

  unlinked_free_idle :
      (x : ℕ) → elem x unlinked.free_sessions ≡ true → elem x unlinked.active_sessions ≡ false
  unfolding unlinked listed
  unlinked_free_idle x e =
      let out = elem-remove x s r.active_sessions v.counted.active_once in
      elim (Bool-cases (s == x)) [
        | inl same ↦ ground arith
        | inr other ↦
            let old = v.free_idle x (ground arith) in elem-remove_idle x s r.active_sessions old
      ]

  unlinked_free_dead : (h : ℕ) → elem h unlinked.free_hashes ≡ true → live unlinked h ≡ false
  unfolding unlinked listed
  unlinked_free_dead h e =
      live-listed h ∙ gone ((r.sessions s).ac_hash == h) ((r.sessions s).client_hash == h) e
    where
      gone :
          (a c : Bool)
          → (c || (a || elem h r.free_hashes)) ≡ true
          → (live r h && (not a && not c)) ≡ false
      gone true c f = ground arith
      gone false true f = ground arith
      gone false false f = rw (v.free_dead h f)

  freed-IsCounted : IsCounted (record unlinked { num_sessions = unlinked.num_sessions - 1 })
  unfolding unlinked listed
  freed-IsCounted =
      let c = v.counted in
      let p = v.pair s act in
      let two = p.two in
      let la = live-ac n r s p act in
      let lc = live-client n r s p act in
      let idle = not_free in
      let len = length-remove s r.active_sessions act in
      record {
        active_once = nodup-remove s r.active_sessions c.active_once;
        free_once = rw (idle, c.free_once);
        hashes_once =
            fresh_hashes (not_free_hash (r.sessions s).ac_hash la)
              (not_free_hash (r.sessions s).client_hash lc) two;
        number = omega (arith, c.number);
        all_sessions = omega (arith, c.number, c.all_sessions);
        all_hashes = omega (arith, c.all_hashes);
      }
    where
      not_free : elem s r.free_sessions ≡ false
      not_free = elim (Bool-cases (elem s r.free_sessions)) [
        | inl f ↦ let i = v.free_idle s f in cc
        | inr f ↦ f
      ]

      not_free_hash : (h : ℕ) → live r h ≡ true → elem h r.free_hashes ≡ false
      not_free_hash h l = elim (Bool-cases (elem h r.free_hashes)) [
        | inl f ↦ let d = v.free_dead h f in cc
        | inr f ↦ f
      ]

      fresh_hashes :
          elem (r.sessions s).ac_hash r.free_hashes ≡ false
          → elem (r.sessions s).client_hash r.free_hashes ≡ false
          → (r.sessions s).ac_hash ≢ (r.sessions s).client_hash
          → nodup ((r.sessions s).client_hash ∷ (r.sessions s).ac_hash ∷ r.free_hashes) ≡ true
      fresh_hashes a c d = let u = v.counted.hashes_once in ground arith

  -- Freeing an active session keeps the table well formed.
  pub free_session-IsValid : IsValid n (free_session s r)
  unfolding free_session
  free_session-IsValid =
      unfold unlinked listed in
      record {
        counted = freed-IsCounted;
        chained = unlinked_chained;
        chain_once = unlinked_chain_once;
        free_idle = unlinked_free_idle;
        free_dead = unlinked_free_dead;
        pair = freed-IsPair;
      }
