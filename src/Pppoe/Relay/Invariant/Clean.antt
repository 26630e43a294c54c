-- ===== src/Pppoe/Relay/Invariant/Clean.antt =====
-- `cleanSessions` on a well-formed table: every session that it frees is active, and the table stays well formed.
use zy_agf.Prelude.{
  ℕ, ◌+◌, ◌^◌, ◌%◌, ◌-◌, true, false, List, [], ◌∷◌, ◌==◌, ltb, ◌≡◌, refl, arith, Bool-cases, inl,
  inr,
}
use zy_agf.Pppoe.Relay.{Relay, remove, free_session, unhash}
use zy_agf.Pppoe.Relay.Table.{elem}
use zy_agf.Pppoe.Relay.Ports.{Interface}
use zy_agf.Pppoe.Relay.Handlers.{clean_from, clean_sessions}
use zy_agf.Pppoe.Relay.Invariant.{IsValid}
use zy_agf.Pppoe.Relay.Invariant.Lists.{nodup, elem-remove}
use zy_agf.Pppoe.Relay.Invariant.Free.{free_session-IsValid}

active-free_session :
    (s : ℕ) (r : Relay) → (free_session s r).active_sessions ≡ remove s r.active_sessions
unfolding free_session
active-free_session s r = unfold unhash in refl

-- What is still to be cleaned is active, also when the session before it is freed.
left_active :
    (cur : ℕ) (rest : List ℕ) (r : Relay)
    → nodup r.active_sessions ≡ true
    → elem cur rest ≡ false
    → ((s : ℕ) → elem s (cur ∷ rest) ≡ true → elem s r.active_sessions ≡ true)
    → (s : ℕ) → elem s rest ≡ true
    → elem s (free_session cur r).active_sessions ≡ true
left_active cur rest r once out act s e =
    let a = act s (ground arith) in
    let k = elem-remove s cur r.active_sessions once in
    rw (active-free_session cur r, k, a)
      (elim (Bool-cases (cur == s)) [ inl same ↦ ground arith | inr other ↦ rw other refl ])

module _ (n : ℕ) (stack err_msg : List ℕ) (ifaces : List Interface) (idle_timeout : ℕ) where
  clean_from-IsValid :
      (rest : List ℕ) (r : Relay)
      → nodup rest ≡ true
      → ((s : ℕ) → elem s rest ≡ true → elem s r.active_sessions ≡ true)
      → IsValid n r
      → IsValid n (clean_from stack err_msg ifaces idle_timeout rest r).1
  unfolding clean_from
  clean_from-IsValid [] r once act v = v
  clean_from-IsValid (cur ∷ rest) r once act v =
      let fresh : elem cur rest ≡ false = ground arith in
      let once' : nodup rest ≡ true = ground arith in
      elim (Bool-cases (ltb idle_timeout ((r.epoch + 2 ^ 32 - (r.sessions cur).epoch) % 2 ^ 32))) [
        | inl e ↦ rw e (
            clean_from-IsValid rest (free_session cur r) once'
              (left_active cur rest r v.counted.active_once fresh act)
              (free_session-IsValid n r cur v (act cur (ground arith))))
        | inr e ↦ rw e (clean_from-IsValid rest r once' (λ s i. act s (ground arith)) v)
      ]

  -- The cleaning of a well-formed table, with any timeout, leaves it well formed.
  pub clean_sessions-IsValid :
      (r : Relay) → IsValid n r → IsValid n (clean_sessions stack err_msg ifaces idle_timeout r).1
  unfolding clean_sessions
  clean_sessions-IsValid r v =
      clean_from-IsValid r.active_sessions r v.counted.active_once (λ s e. e) v
