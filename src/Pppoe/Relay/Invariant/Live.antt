-- ===== src/Pppoe/Relay/Invariant/Live.antt =====
-- The entries of an active session are live; two entries put in their chains.
use zy_agf.Prelude.{
  ℕ, ◌+◌, Bool, true, false, ◌&&◌, ◌||◌, List, ◌∷◌, ◌==◌, ◌≡◌, inl, inr, arith, Bool-cases, ==_iff,
}
use zy_agf.Pppoe.Relay.{Relay, update, add_hash}
use zy_agf.Pppoe.Relay.Table.{elem, ac_entry, cli_entry}
use zy_agf.Pppoe.Relay.Invariant.{home, live, IsPair}
use zy_agf.Pppoe.Relay.Invariant.Lists.{nodup}

pub elem-add_hash :
    (r : Relay) (x h b : ℕ)
    → elem h ((add_hash x r).buckets b) ≡ ((home r x == b && x == h) || elem h (r.buckets b))
unfolding add_hash
elem-add_hash r x h b = ground arith

pub nodup-add_hash :
    (r : Relay) (x b : ℕ)
    → elem x (r.buckets b) ≡ false
    → nodup (r.buckets b) ≡ true
    → nodup ((add_hash x r).buckets b) ≡ true
unfolding add_hash
nodup-add_hash r x b e h = ground arith

-- The table of a new session before its entries are put in their chains.
abbrev pub unlinked : ℕ → ℕ → List ℕ → List ℕ → ℕ → Relay → ℕ → List ℕ → ℕ → ℕ → List ℕ → Relay
unlinked ac cli ac_mac cli_mac ac_ses r sess free_sessions ah ch free_hashes = record r {
  num_sessions = r.num_sessions + 1;
  sessions =
      update r.sessions sess
        (record (r.sessions sess) { ac_hash = ah; client_hash = ch; epoch = r.epoch });
  free_sessions = free_sessions;
  active_sessions = sess ∷ r.active_sessions;
  hashes =
      update (update r.hashes ah (ac_entry ac ac_mac ac_ses sess ch)) ch
        (cli_entry r cli cli_mac sess ah);
  free_hashes = free_hashes;
}

pub live-ac :
    (n : ℕ) (r : Relay) (s : ℕ)
    → IsPair n r s
    → elem s r.active_sessions ≡ true
    → live r (r.sessions s).ac_hash ≡ true
live-ac n r s p e = rw (p.ac_ses, e) (ground arith)

pub live-client :
    (n : ℕ) (r : Relay) (s : ℕ)
    → IsPair n r s
    → elem s r.active_sessions ≡ true
    → live r (r.sessions s).client_hash ≡ true
live-client n r s p e = rw (p.client_ses, e) (ground arith)

pub live_ne : (r : Relay) (x y : ℕ) → live r x ≡ true → live r y ≡ false → (y == x) ≡ false
live_ne r x y a b = elim (Bool-cases (y == x)) [
  | inl e ↦ let same : y ≡ x = (==_iff y x).0 e in absurd_bool (rw same at b) a
  | inr e ↦ e
]
  where
    absurd_bool : live r x ≡ false → live r x ≡ true → (y == x) ≡ false
    absurd_bool f t = cc

-- Two entries more, in an abstract table: where `h` stands, and whether it is live.
pub two_entries :
    (new old : ℕ → ℕ) (was : ℕ → Bool) (ah ch h b : ℕ)
    → was ah ≡ false
    → was ch ≡ false
    → ((ah == h) ≡ false → (ch == h) ≡ false → new h ≡ old h)
    → (new ch == b && ch == h || (new ah == b && ah == h || old h == b && was h))
      ≡ (new h == b && (ah == h || (ch == h || was h)))
two_entries new old was ah ch h b ad cd same = elim (Bool-cases (ch == h)) [
  | inl c ↦ ground arith
  | inr c ↦ elim (Bool-cases (ah == h)) [
    | inl a ↦ ground arith
    | inr a ↦ let e = same a c in ground arith
  ]
]
