-- ===== src/Pppoe/Relay/Table.antt =====
-- Which entry a lookup finds, after a session was created and after one was freed.
use zy_agf.Prelude.{
  ℕ, ◌+◌, Bool, true, false, ◌||◌, Option, some, List, [], ◌∷◌, ◌==◌, if◌then◌else◌, ◌≡◌, ◌≢◌, inl,
  inr, refl, sym, ap₂, ◌∙◌, arith, Bool-cases, ==_iff,
}
use zy_agf.Pppoe.Relay.{
  SessionHash, Relay, update, mac_eq, bucket_of, is_entry, find_in, find_session, add_hash, remove,
  unhash, link_session, free_session,
}

-- Whether an index is in a list.
abbrev pub elem : ℕ → List ℕ → Bool
elem x [] = false
elem x (y ∷ ys) = y == x || elem x ys

pub mac_eq-eq : (a b : List ℕ) → mac_eq a b ≡ true → a ≡ b
unfolding mac_eq
mac_eq-eq [] [] h = refl
mac_eq-eq (x ∷ a) (y ∷ b) h = ground (arith, mac_eq-eq a b)
mac_eq-eq [] (y ∷ b) h = cc
mac_eq-eq (x ∷ a) [] h = cc

pub mac_eq_refl : (a : List ℕ) → mac_eq a a ≡ true
unfolding mac_eq
mac_eq_refl [] = refl
mac_eq_refl (x ∷ a) = ground (arith, mac_eq_refl a)

-- An entry stands in the bucket of its own address and number.
pub is_entry-bucket :
    (mac : List ℕ) (n : ℕ) (sh : SessionHash)
    → is_entry mac n sh ≡ true
    → bucket_of mac n ≡ bucket_of sh.peer_mac sh.ses_num
is_entry-bucket mac n sh h = ap₂ bucket_of (mac_eq-eq mac sh.peer_mac (ground arith)) (ground arith)

find_in-update :
    (hashes : ℕ → SessionHash) (h : ℕ) (sh : SessionHash) (mac : List ℕ) (n : ℕ) (chain : List ℕ)
    → elem h chain ≡ false
    → find_in (update hashes h sh) mac n chain ≡ find_in hashes mac n chain
unfolding find_in
find_in-update hashes h sh mac n [] e = refl
find_in-update hashes h sh mac n (x ∷ chain) e =
    ground (arith, find_in-update hashes h sh mac n chain)

find_in-remove :
    (hashes : ℕ → SessionHash) (x h : ℕ) (mac : List ℕ) (n : ℕ) (chain : List ℕ)
    → find_in hashes mac n chain ≡ some h
    → h ≢ x
    → find_in hashes mac n (remove x chain) ≡ some h
unfolding find_in remove
find_in-remove hashes x h mac n [] e ne = cc
find_in-remove hashes x h mac n (y ∷ chain) e ne =
    ground (arith, find_in-remove hashes x h mac n chain)

find_in-bucket :
    (buckets : ℕ → List ℕ) (hashes : ℕ → SessionHash) (home b : ℕ) (chain : List ℕ) (mac : List ℕ)
    (n : ℕ) {o : Option ℕ}
    → (home ≡ b → find_in hashes mac n chain ≡ o)
    → (home ≢ b → find_in hashes mac n (buckets b) ≡ o)
    → find_in hashes mac n (update buckets home chain b) ≡ o
find_in-bucket buckets hashes home b chain mac n here there = elim (Bool-cases (home == b)) [
  | inl e ↦ rw e (here ((==_iff home b).0 e))
  | inr e ↦ rw e (there (ground arith))
]

find_session-unhash :
    (r : Relay) (x h : ℕ) (mac : List ℕ) (n : ℕ)
    → find_session r mac n ≡ some h
    → h ≢ x
    → find_session (unhash x r) mac n ≡ some h
unfolding find_session unhash
find_session-unhash r x h mac n e ne =
    let sh = r.hashes x in
    let home = bucket_of sh.peer_mac sh.ses_num in
    find_in-bucket r.buckets r.hashes home (bucket_of mac n) (remove x (r.buckets home)) mac n
      (λ same. rw same (find_in-remove r.hashes x h mac n (r.buckets (bucket_of mac n)) e ne))
      (λ other. e)

-- A lookup that finds an entry which is neither entry of a session finds it also after that session is
-- freed.
pub find_session-free_session :
    (r : Relay) (s h : ℕ) (mac : List ℕ) (n : ℕ)
    → find_session r mac n ≡ some h
    → h ≢ (r.sessions s).ac_hash
    → h ≢ (r.sessions s).client_hash
    → find_session (free_session s r) mac n ≡ some h
unfolding free_session
find_session-free_session r s h mac n e a c =
    let ses = r.sessions s in
    let r1 = record r {
      active_sessions = remove s r.active_sessions;
      free_sessions = s ∷ r.free_sessions;
    } in
    let first : find_session r1 mac n ≡ some h = unfold find_session in e in
    let last =
      find_session-unhash (unhash ses.ac_hash r1) ses.client_hash h mac n
        (find_session-unhash r1 ses.ac_hash h mac n first a) c in
    unfold find_session in last

-- No chain of the table has the entry.
pub record Unchained (r : Relay) (h : ℕ) : Type 0 where
  pub unchained : (b : ℕ) → elem h (r.buckets b) ≡ false

-- What `add_hash` does to lookups.
find_session-add_hash :
    (r : Relay) (h : ℕ) (mac : List ℕ) (n : ℕ)
    → find_session (add_hash h r) mac n
      ≡ (if is_entry mac n (r.hashes h) then some h else find_session r mac n)
unfolding find_session add_hash find_in
find_session-add_hash r h mac n =
    let sh = r.hashes h in
    let home = bucket_of sh.peer_mac sh.ses_num in
    find_in-bucket r.buckets r.hashes home (bucket_of mac n) (h ∷ r.buckets home) mac n
      (λ same. rw same)
      (λ other. elim (Bool-cases (is_entry mac n sh)) [
        | inl e ↦ absurd (other (sym (is_entry-bucket mac n sh e)))
        | inr e ↦ rw e
      ])

-- The entries that `createSession` writes.
abbrev pub ac_entry : ℕ → List ℕ → ℕ → ℕ → ℕ → SessionHash
ac_entry ac ac_mac ac_ses sess cli_hash = record {
  peer = cli_hash;
  interface = ac;
  peer_mac = ac_mac;
  ses_num = ac_ses;
  ses = sess;
}

abbrev pub cli_entry : Relay → ℕ → List ℕ → ℕ → ℕ → SessionHash
cli_entry r cli cli_mac sess ac_hash = record {
  peer = ac_hash;
  interface = cli;
  peer_mac = cli_mac;
  ses_num = (r.sessions sess).ses_num;
  ses = sess;
}

update_self {ℓ} : {A : Type ℓ} (f : ℕ → A) (i : ℕ) (a : A) → update f i a i ≡ a
update_self f i a = ground arith

-- After a session is created with two entries that are distinct and in no chain, a lookup finds the
-- client's entry by the client's address with the number that the relay assigned, else the access
-- concentrator's entry by its address and number, and else what it found before.
pub find_session-link_session :
    (ac cli : ℕ) (ac_mac cli_mac : List ℕ) (ac_ses : ℕ) (r : Relay) (sess : ℕ)
    (free_sessions : List ℕ) (ah ch : ℕ) (free_hashes : List ℕ) (mac : List ℕ) (n : ℕ)
    → Unchained r ah
    → Unchained r ch
    → ah ≢ ch
    → find_session
        (link_session ac cli ac_mac cli_mac ac_ses r sess free_sessions ah ch free_hashes)
        mac
        n
      ≡ (if is_entry mac n (cli_entry r cli cli_mac sess ah)
          then some ch
          else if is_entry mac n (ac_entry ac ac_mac ac_ses sess ch)
          then some ah
          else find_session r mac n)
unfolding link_session
find_session-link_session ac cli ac_mac cli_mac ac_ses r sess free_sessions ah ch free_hashes mac n
      ua uc ne =
    let ce = cli_entry r cli cli_mac sess ah in
    let ae = ac_entry ac ac_mac ac_ses sess ch in
    let hs = update (update r.hashes ah ae) ch ce in
    let r0 : Relay = record r {
      num_sessions = r.num_sessions + 1;
      sessions =
          update r.sessions sess
            (record (r.sessions sess) { ac_hash = ah; client_hash = ch; epoch = r.epoch });
      free_sessions = free_sessions;
      active_sessions = sess ∷ r.active_sessions;
      hashes = hs;
      free_hashes = free_hashes;
    } in
    let at_cli : hs ch ≡ ce = update_self (update r.hashes ah ae) ch ce in
    let at_ac : hs ah ≡ ae = ground arith in
    let base : find_session r0 mac n ≡ find_session r mac n =
      unfold find_session in
      (find_in-update (update r.hashes ah ae) ch ce mac n (r.buckets (bucket_of mac n))
          (uc.unchained (bucket_of mac n))
        ∙ find_in-update r.hashes ah ae mac n (r.buckets (bucket_of mac n))
            (ua.unchained (bucket_of mac n))) in
    find_session-add_hash (add_hash ah r0) ch mac n
    ∙ ap₂ (λ (e : SessionHash) (o : Option ℕ). if is_entry mac n e then some ch else o) at_cli
        (find_session-add_hash r0 ah mac n
          ∙ ap₂ (λ (e : SessionHash) (o : Option ℕ). if is_entry mac n e then some ah else o) at_ac
              base)
