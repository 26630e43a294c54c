-- ===== src/Pppoe/Relay/Invariant/Lookup.antt =====
-- `findSession` in a well-formed table finds an entry exactly if there is one, and whose it is.
use zy_agf.Prelude.{
  ℕ, true, false, none, some, List, [], ◌∷◌, ◌≡◌, arith, Bool-cases, inl, inr, subst, Option,
  Option-cases,
}
use zy_agf.Pppoe.Relay.{SessionHash, Relay, bucket_of, is_entry, find_in, find_session}
use zy_agf.Pppoe.Relay.Table.{elem, is_entry-bucket}
use zy_agf.Pppoe.Relay.Invariant.{home, live, IsValid}

find_in-elem :
    (hashes : ℕ → SessionHash) (mac : List ℕ) (n h : ℕ) (chain : List ℕ)
    → find_in hashes mac n chain ≡ some h
    → (elem h chain ≡ true) × (is_entry mac n (hashes h) ≡ true)
unfolding find_in
find_in-elem hashes mac n h [] e = cc
find_in-elem hashes mac n h (x ∷ chain) e = elim (Bool-cases (is_entry mac n (hashes x))) [
  | inl here ↦
      let same : some x ≡ some h = rw here at e in
      (ground arith, subst (λ y. is_entry mac n (hashes y) ≡ true) (cc) here)
  | inr later ↦
      let rest : find_in hashes mac n chain ≡ some h = rw later at e in
      let ih = find_in-elem hashes mac n h chain rest in (ground arith, ih.1)
]

find_in-none :
    (hashes : ℕ → SessionHash) (mac : List ℕ) (n h : ℕ) (chain : List ℕ)
    → find_in hashes mac n chain ≡ none
    → elem h chain ≡ true
    → is_entry mac n (hashes h) ≡ false
unfolding find_in
find_in-none hashes mac n h [] e m = cc
find_in-none hashes mac n h (x ∷ chain) e m = ground (arith, find_in-none hashes mac n h chain)

-- What a lookup gives: an entry of an active session with the address and the number sought, or nothing, and
-- then no entry of an active session has them.
pub data Looked (r : Relay) (mac : List ℕ) (num : ℕ) : Option ℕ → Type 0 where
  found :
      {h : ℕ} → live r h ≡ true → is_entry mac num (r.hashes h) ≡ true → Looked r mac num (some h)
  not_found :
      ((h : ℕ) → live r h ≡ true → is_entry mac num (r.hashes h) ≡ false) → Looked r mac num none

found_live :
    (n : ℕ) (r : Relay) (mac : List ℕ) (num h : ℕ)
    → IsValid n r
    → find_in r.hashes mac num (r.buckets (bucket_of mac num)) ≡ some h
    → Looked r mac num (some h)
found_live n r mac num h v e =
    let m = find_in-elem r.hashes mac num h (r.buckets (bucket_of mac num)) e in
    let c = v.chained (bucket_of mac num) h in found (ground (arith, m.0)) m.1

not_found-live :
    (n : ℕ) (r : Relay) (mac : List ℕ) (num : ℕ)
    → IsValid n r
    → find_in r.hashes mac num (r.buckets (bucket_of mac num)) ≡ none
    → (h : ℕ) → live r h ≡ true
    → is_entry mac num (r.hashes h) ≡ false
not_found-live n r mac num v e h l = elim (Bool-cases (is_entry mac num (r.hashes h))) [
  | inl own ↦
      let at : bucket_of mac num ≡ home r h = is_entry-bucket mac num (r.hashes h) own in
      let c = v.chained (bucket_of mac num) h in
      find_in-none r.hashes mac num h (r.buckets (bucket_of mac num)) e (ground arith)
  | inr other ↦ other
]

-- In a well-formed table, what `findSession` finds is an entry of an active session, with the address and
-- the number sought; where it finds none, no entry of an active session has them.
pub find_session-Looked :
    (n : ℕ) (r : Relay) (mac : List ℕ) (num : ℕ)
    → IsValid n r
    → Looked r mac num (find_session r mac num)
unfolding find_session
find_session-Looked n r mac num v =
    elim (Option-cases (find_in r.hashes mac num (r.buckets (bucket_of mac num)))) [
      | inl e ↦ rw e (not_found (not_found-live n r mac num v e))
      | inr (h, e) ↦ rw e (found_live n r mac num h v e)
    ]

-- The entry that a lookup found is live.
pub found-live :
    {r : Relay} {mac : List ℕ} {num h : ℕ} → Looked r mac num (some h) → live r h ≡ true
found-live (found l e) = l

pub find_session-live :
    (n : ℕ) (r : Relay) (mac : List ℕ) (num h : ℕ)
    → IsValid n r
    → find_session r mac num ≡ some h
    → live r h ≡ true
find_session-live n r mac num h v e =
    found-live (subst (λ o. Looked r mac num o) e (find_session-Looked n r mac num v))
