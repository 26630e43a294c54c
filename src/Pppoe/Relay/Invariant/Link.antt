-- ===== src/Pppoe/Relay/Invariant/Link.antt =====
-- The part of `createSession` that fills a free session and two free entries keeps the table well formed.
use zy_agf.Prelude.{
  ℕ, ◌+◌, ◌*◌, ◌<◌, true, false, ◌&&◌, ◌||◌, List, ◌∷◌, ◌==◌, length, ◌≡◌, ◌≢◌, inl, inr, refl,
  subst, ◌∙◌, arith, Bool-cases, ==_iff,
}
use zy_agf.Pppoe.Relay.{Relay, add_hash, link_session}
use zy_agf.Pppoe.Relay.Table.{elem}
use zy_agf.Pppoe.Relay.Invariant.{home, live, IsPair, IsCounted, IsValid}
use zy_agf.Pppoe.Relay.Invariant.Lists.{nodup}
use zy_agf.Pppoe.Relay.Invariant.Live.{
  unlinked, elem-add_hash, nodup-add_hash, live-ac, live-client, live_ne, two_entries,
}

module _ (n ac cli : ℕ) (ac_mac cli_mac : List ℕ) (ac_ses : ℕ) (r : Relay) (sess : ℕ)
    (free_sessions : List ℕ) (ah ch : ℕ) (free_hashes : List ℕ) (v : IsValid n r)
    (fs : r.free_sessions ≡ sess ∷ free_sessions) (fh : r.free_hashes ≡ ah ∷ ch ∷ free_hashes) where
  idle : elem sess r.active_sessions ≡ false
  idle = v.free_idle sess (rw fs (ground arith))

  ah_dead : live r ah ≡ false
  ah_dead = v.free_dead ah (rw fh (ground arith))

  ch_dead : live r ch ≡ false
  ch_dead = v.free_dead ch (rw fh (ground arith))

  hashes_nodup : nodup (ah ∷ ch ∷ free_hashes) ≡ true
  hashes_nodup = rw fh at v.counted.hashes_once

  distinct : ah ≢ ch
  distinct = let u = hashes_nodup in ground arith

  live-unlinked :
      (h : ℕ)
      → live (unlinked ac cli ac_mac cli_mac ac_ses r sess free_sessions ah ch free_hashes) h
        ≡ (ah == h || (ch == h || live r h))
  live-unlinked h = let i = idle in let d = distinct in ground arith

  linked : Relay
  unfolding add_hash
  linked =
      add_hash ch
        (add_hash ah (unlinked ac cli ac_mac cli_mac ac_ses r sess free_sessions ah ch free_hashes))

  home-linked :
      (h : ℕ)
      → home linked h
        ≡ home (unlinked ac cli ac_mac cli_mac ac_ses r sess free_sessions ah ch free_hashes) h
  unfolding linked
  home-linked h = refl

  home-unlinked :
      (h : ℕ)
      → (ah == h) ≡ false
      → (ch == h) ≡ false
      → home (unlinked ac cli ac_mac cli_mac ac_ses r sess free_sessions ah ch free_hashes) h
        ≡ home r h
  home-unlinked h a c = rw (a, c)

  linked_chained : (b h : ℕ) → elem h (linked.buckets b) ≡ (home linked h == b && live linked h)
  unfolding linked
  linked_chained b h =
      let r0 = unlinked ac cli ac_mac cli_mac ac_ses r sess free_sessions ah ch free_hashes in
      let d = distinct in
      let ad = ah_dead in
      let cd = ch_dead in
      let at_ch : home (add_hash ah r0) ch ≡ home r0 ch = unfold add_hash in refl in
      elem-add_hash (add_hash ah r0) ch h b
      ∙ rw (elem-add_hash r0 ah h b, v.chained b h, live-unlinked h, at_ch, home-linked h)
          (two_entries (home r0) (home r) (live r) ah ch h b ad cd (home-unlinked h))

  linked_chain_once : (b : ℕ) → nodup (linked.buckets b) ≡ true
  unfolding linked
  linked_chain_once b =
      let r0 = unlinked ac cli ac_mac cli_mac ac_ses r sess free_sessions ah ch free_hashes in
      let d = distinct in
      let ad = ah_dead in
      let cd = ch_dead in
      nodup-add_hash (add_hash ah r0) ch b
        (elem-add_hash r0 ah ch b ∙ rw (v.chained b ch) (ground arith))
        (nodup-add_hash r0 ah b (rw (v.chained b ah) (ground arith)) (v.chain_once b))

  linked-IsPair_new : ac < n → cli < n → IsPair n linked sess
  unfolding linked
  linked-IsPair_new a c =
      let d = distinct in
      record {
        ac_ses = ground arith;
        client_ses = ground arith;
        ac_peer = ground arith;
        client_peer = ground arith;
        two = ground arith;
        ac_interface = ground arith;
        client_interface = ground arith;
      }

  linked-IsPair_old :
      (s : ℕ) → (sess == s) ≡ false → elem s r.active_sessions ≡ true → IsPair n linked s
  unfolding linked
  linked-IsPair_old s o e =
      let p = v.pair s e in
      let la = live-ac n r s p e in
      let lc = live-client n r s p e in
      let a1 = live_ne r (r.sessions s).ac_hash ah la ah_dead in
      let a2 = live_ne r (r.sessions s).ac_hash ch la ch_dead in
      let c1 = live_ne r (r.sessions s).client_hash ah lc ah_dead in
      let c2 = live_ne r (r.sessions s).client_hash ch lc ch_dead in
      record {
        ac_ses = rw (o, a1, a2) p.ac_ses;
        client_ses = rw (o, c1, c2) p.client_ses;
        ac_peer = rw (o, a1, a2) p.ac_peer;
        client_peer = rw (o, c1, c2) p.client_peer;
        two = rw o p.two;
        ac_interface = rw (o, a1, a2) p.ac_interface;
        client_interface = rw (o, c1, c2) p.client_interface;
      }

  linked-IsCounted : IsCounted linked
  unfolding linked
  linked-IsCounted =
      let c = v.counted in
      let i = idle in
      let u = hashes_nodup in
      let f : nodup (sess ∷ free_sessions) ≡ true = rw fs at c.free_once in
      let all : r.num_sessions + length (sess ∷ free_sessions) ≡ r.max_sessions =
        rw fs at c.all_sessions in
      let two : length (ah ∷ ch ∷ free_hashes) ≡ 2 * length (sess ∷ free_sessions) =
        rw (fs, fh) at c.all_hashes in
      record {
        active_once = rw (i, c.active_once);
        free_once = ground arith;
        hashes_once = ground arith;
        number = omega (arith, c.number);
        all_sessions = omega arith;
        all_hashes = omega arith;
      }

  linked_free_idle :
      (s : ℕ) → elem s linked.free_sessions ≡ true → elem s linked.active_sessions ≡ false
  unfolding linked
  linked_free_idle s e =
      let f : nodup (sess ∷ free_sessions) ≡ true = rw fs at v.counted.free_once in
      let old = v.free_idle s (rw (fs, e) (ground arith)) in ground arith

  linked_free_dead : (h : ℕ) → elem h linked.free_hashes ≡ true → live linked h ≡ false
  unfolding linked
  linked_free_dead h e =
      let u = hashes_nodup in
      let old = v.free_dead h (rw (fh, e) (ground arith)) in
      let l = live-unlinked h in
      let a : (ah == h) ≡ false = ground arith in
      let c : (ch == h) ≡ false = ground arith in l ∙ rw (a, c, old)

  linked-IsPair :
      ac < n → cli < n → (s : ℕ) → elem s linked.active_sessions ≡ true → IsPair n linked s
  unfolding linked
  linked-IsPair a c s e = elim (Bool-cases (sess == s)) [
    | inl same ↦ subst (IsPair n linked) ((==_iff sess s).0 same) (linked-IsPair_new a c)
    | inr other ↦ linked-IsPair_old s other (rw other at e)
  ]

  linked-IsValid : ac < n → cli < n → IsValid n linked
  linked-IsValid a c = record {
    counted = linked-IsCounted;
    chained = linked_chained;
    chain_once = linked_chain_once;
    free_idle = linked_free_idle;
    free_dead = linked_free_dead;
    pair = linked-IsPair a c;
  }

  pub link_session-IsValid :
      ac < n
      → cli < n
      → IsValid n (link_session ac cli ac_mac cli_mac ac_ses r sess free_sessions ah ch free_hashes)
  unfolding link_session
  link_session-IsValid a c = unfold linked in linked-IsValid a c
