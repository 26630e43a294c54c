-- ===== src/Pppoe/Relay/Invariant/Reach.antt =====
-- The table that `initRelay` makes is well formed, and so are those that only the clock has changed.
use zy_agf.Prelude.{
  ℕ, zero, suc, ◌+◌, ◌*◌, ◌<◌, true, false, ◌&&◌, ◌==◌, length, ◌≡◌, refl, sym, ap, subst, ◌∙◌,
  arith, Bool-cases, ==_iff, inl, inr,
}
use zy_agf.Pppoe.Relay.{Session, Relay, indices, init_relay}
use zy_agf.Pppoe.Relay.Table.{elem}
use zy_agf.Pppoe.Relay.Invariant.{home, live, IsPair, IsValid}
use zy_agf.Pppoe.Relay.Invariant.Lists.{nodup}
use zy_agf.Pppoe.Relay.Invariant.Live.{live-client, live-ac}

elem-indices : (x i n : ℕ) → x < i → elem x (indices i n) ≡ false
unfolding indices
elem-indices x i zero h = refl
elem-indices x i (suc n) h = ground (arith, elem-indices x (i + 1) n)

pub nodup-indices : (i n : ℕ) → nodup (indices i n) ≡ true
unfolding indices
nodup-indices i zero = refl
nodup-indices i (suc n) = rw (elem-indices i (i + 1) n (omega arith), nodup-indices (i + 1) n)

pub length-indices : (i n : ℕ) → length (indices i n) ≡ n
unfolding indices
length-indices i zero = refl
length-indices i (suc n) = ap suc (length-indices (i + 1) n)

pub init_relay-IsValid : (n nsess : ℕ) → IsValid n (init_relay nsess)
unfolding init_relay
init_relay-IsValid n nsess = record {
  counted = record {
    active_once = refl;
    free_once = nodup-indices 0 nsess;
    hashes_once = nodup-indices 0 (2 * nsess);
    number = refl;
    all_sessions = omega (arith, length-indices 0 nsess);
    all_hashes = omega (arith, length-indices 0 nsess, length-indices 0 (2 * nsess));
  };
  chained = λ b h. ground arith;
  chain_once = λ b. refl;
  free_idle = λ s e. refl;
  free_dead = λ h e. refl;
  pair = λ s e. cc;
}

-- An entry of an active session, and its peer.
pub record Peers (n : ℕ) (r : Relay) (h : ℕ) : Type 0 where
  pub active : elem (r.hashes h).ses r.active_sessions ≡ true
  pub interface : (r.hashes h).interface < n
  pub peer_interface : (r.hashes (r.hashes h).peer).interface < n
  pub peer_live : live r (r.hashes h).peer ≡ true
  pub peer_ses : (r.hashes (r.hashes h).peer).ses ≡ (r.hashes h).ses
  pub peer_peer : (r.hashes (r.hashes h).peer).peer ≡ h

-- In a well-formed table the two entries of a session are each other's peer, on interfaces that exist.
pub live-Peers : (n : ℕ) (r : Relay) (h : ℕ) → IsValid n r → live r h ≡ true → Peers n r h
live-Peers n r h v l =
    let s = (r.hashes h).ses in
    let act : elem s r.active_sessions ≡ true = ground arith in
    let p = v.pair s act in
    let la = live-ac n r s p act in
    let lc = live-client n r s p act in
    elim (Bool-cases ((r.sessions s).ac_hash == h)) [
      | inl a ↦
          let at : (r.sessions s).ac_hash ≡ h = (==_iff (r.sessions s).ac_hash h).0 a in
          let q : (r.hashes h).peer ≡ (r.sessions s).client_hash =
            subst (λ x. (r.hashes x).peer ≡ (r.sessions s).client_hash) at p.ac_peer in
          of_peer act (subst (λ x. (r.hashes x).interface < n) at p.ac_interface) (sym q)
            p.client_interface lc p.client_ses (p.client_peer ∙ at)
      | inr a ↦
          let at : (r.sessions s).client_hash ≡ h =
            (==_iff (r.sessions s).client_hash h).0 (ground arith) in
          let q : (r.hashes h).peer ≡ (r.sessions s).ac_hash =
            subst (λ x. (r.hashes x).peer ≡ (r.sessions s).ac_hash) at p.client_peer in
          of_peer act (subst (λ x. (r.hashes x).interface < n) at p.client_interface) (sym q)
            p.ac_interface la p.ac_ses (p.ac_peer ∙ at)
    ]
  where
    of_peer :
        {k : ℕ}
        → elem (r.hashes h).ses r.active_sessions ≡ true
        → (r.hashes h).interface < n
        → k ≡ (r.hashes h).peer
        → (r.hashes k).interface < n
        → live r k ≡ true
        → (r.hashes k).ses ≡ (r.hashes h).ses
        → (r.hashes k).peer ≡ h
        → Peers n r h
    of_peer act i e j lk sk pk = record {
      active = act;
      interface = i;
      peer_interface = subst (λ x. (r.hashes x).interface < n) e j;
      peer_live = subst (λ x. live r x ≡ true) e lk;
      peer_ses = subst (λ x. (r.hashes x).ses ≡ (r.hashes h).ses) e sk;
      peer_peer = subst (λ x. (r.hashes x).peer ≡ h) e pk;
    }

-- Epochs do not matter: the clock's, and those of the sessions.
module _ (n : ℕ) (r : Relay) (sessions : ℕ → Session) (epoch : ℕ)
    (ac : (s : ℕ) → (sessions s).ac_hash ≡ (r.sessions s).ac_hash)
    (client : (s : ℕ) → (sessions s).client_hash ≡ (r.sessions s).client_hash) where
  abbrev retimed : Relay
  retimed = record r { sessions = sessions; epoch = epoch }

  live-retimed : (h : ℕ) → live retimed h ≡ live r h
  live-retimed h = rw (ac (r.hashes h).ses, client (r.hashes h).ses)

  IsPair-retimed : (s : ℕ) → IsPair n r s → IsPair n retimed s
  IsPair-retimed s p = record {
    ac_ses = rw (ac s) p.ac_ses;
    client_ses = rw (client s) p.client_ses;
    ac_peer = rw (ac s, client s) p.ac_peer;
    client_peer = rw (ac s, client s) p.client_peer;
    two = rw (ac s, client s) p.two;
    ac_interface = rw (ac s) p.ac_interface;
    client_interface = rw (client s) p.client_interface;
  }

  pub retimed-IsValid : IsValid n r → IsValid n (record r { sessions = sessions; epoch = epoch })
  retimed-IsValid v = record {
    counted = record {
      active_once = v.counted.active_once;
      free_once = v.counted.free_once;
      hashes_once = v.counted.hashes_once;
      number = v.counted.number;
      all_sessions = v.counted.all_sessions;
      all_hashes = v.counted.all_hashes;
    };
    chained = λ b h. v.chained b h ∙ ap (λ l. home r h == b && l) (sym (live-retimed h));
    chain_once = v.chain_once;
    free_idle = v.free_idle;
    free_dead = λ h e. live-retimed h ∙ v.free_dead h e;
    pair = λ s e. IsPair-retimed s (v.pair s e);
  }
