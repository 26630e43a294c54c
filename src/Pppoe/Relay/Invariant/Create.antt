-- ===== src/Pppoe/Relay/Invariant/Create.antt =====
-- `createSession` on a well-formed table, full or not.
use zy_agf.Prelude.{
  ℕ, ◌+◌, ◌<◌, Option, none, some, List, [], ◌∷◌, leb, length, ◌≡◌, ◌⊎◌, inl, inr, refl, ap, arith,
  Bool-cases, leb→le, lt→leb,
}
use zy_agf.Pppoe.Relay.{Relay, add_hash, link_session, create_session}
use zy_agf.Pppoe.Relay.Invariant.{IsValid}
use zy_agf.Pppoe.Relay.Invariant.Link.{link_session-IsValid}

-- What `createSession` does to a table that is well formed: NULL where it is full, or a new session.
pub record Creates (n ac cli : ℕ) (ac_mac cli_mac : List ℕ) (ac_ses : ℕ) (r : Relay) : Type 0 where
  pub made : Option ℕ
  pub after : Relay
  pub runs : create_session ac cli ac_mac cli_mac ac_ses r ≡ some (made, after)
  pub valid : IsValid n after
  pub full_or_new :
      ((r.num_sessions ≡ r.max_sessions) × (made ≡ none) × (after ≡ r))
      ⊎ ((r.num_sessions < r.max_sessions)
          × (after.num_sessions ≡ r.num_sessions + 1)
          × ((s : ℕ) × (made ≡ some s) × (after.active_sessions ≡ s ∷ r.active_sessions)))

-- With the free lists taken apart; lists that are too short contradict the counts.
create_from :
    (n ac cli : ℕ) (ac_mac cli_mac : List ℕ) (ac_ses : ℕ) (r : Relay) (fs fh : List ℕ)
    → IsValid n r
    → r.free_sessions ≡ fs
    → r.free_hashes ≡ fh
    → r.num_sessions < r.max_sessions
    → ac < n
    → cli < n
    → Creates n ac cli ac_mac cli_mac ac_ses r
unfolding create_session link_session
create_from n ac cli ac_mac cli_mac ac_ses r [] fh v e f small a c =
    absurd (omega (arith, v.counted.all_sessions, ap (length {A = ℕ}) e))
create_from n ac cli ac_mac cli_mac ac_ses r (s ∷ fs) [] v e f small a c =
    absurd (omega (arith, v.counted.all_hashes, ap (length {A = ℕ}) e, ap (length {A = ℕ}) f))
create_from n ac cli ac_mac cli_mac ac_ses r (s ∷ fs) (ah ∷ []) v e f small a c =
    absurd (omega (arith, v.counted.all_hashes, ap (length {A = ℕ}) e, ap (length {A = ℕ}) f))
create_from n ac cli ac_mac cli_mac ac_ses r (s ∷ fs) (ah ∷ ch ∷ fh) v e f small a c = record {
  made = some s;
  after = link_session ac cli ac_mac cli_mac ac_ses r s fs ah ch fh;
  runs = rw (lt→leb r.max_sessions r.num_sessions small, e, f);
  valid = link_session-IsValid n ac cli ac_mac cli_mac ac_ses r s fs ah ch fh v e f a c;
  full_or_new = inr (small, unfold add_hash in refl, (s, refl, unfold add_hash in refl));
}

-- In a well-formed table, with interfaces that exist, `createSession` never follows a null pointer: the
-- table is full, and NULL is returned and nothing changed, or a session is added. The table stays well
-- formed.
pub create_session-IsValid :
    (n ac cli : ℕ) (ac_mac cli_mac : List ℕ) (ac_ses : ℕ) (r : Relay)
    → IsValid n r
    → ac < n
    → cli < n
    → Creates n ac cli ac_mac cli_mac ac_ses r
unfolding create_session
create_session-IsValid n ac cli ac_mac cli_mac ac_ses r v a c =
    elim (Bool-cases (leb r.max_sessions r.num_sessions)) [
      | inl full ↦ record {
        made = none;
        after = r;
        runs = rw full;
        valid = v;
        full_or_new = inl (
          omega (arith, leb→le r.max_sessions r.num_sessions full, v.counted.all_sessions),
          refl,
          refl,
        );
      }
      | inr room ↦
          create_from n ac cli ac_mac cli_mac ac_ses r r.free_sessions r.free_hashes v refl refl
            (ground arith) a c
    ]
