-- ===== src/Pppoe/Clamp/Options.antt =====
-- rp-pppoe/src/common.c: the options of a TCP header, as `clampMSS` goes through them.
use zy_agf.Prelude.{
  ℕ, zero, suc, ◌+◌, ◌≤◌, ◌<◌, ◌≢◌, false, some, List, ◌==◌, ==_iff, ltb, if◌then◌else◌, get_elem?,
  >>=_some, ◌≡◌, ap, some_inj, ◌∙◌, inl, inr, subst, arith, Bool-cases,
}
use zy_agf.Pppoe.Clamp.{Mss, bogus, absent, at, find_mss}

-- The options from one position up to `end`: what the first MSS option among them is. An option of kind 0
-- ends them, one of kind 1 is a single byte, and any other says its length in its second byte.
pub data Options (b : List ℕ) (end : ℕ) : ℕ → Mss → Type 0 where
  past : {opt : ℕ} → end ≤ opt → Options b end opt absent
  last : {opt : ℕ} → opt < end → get_elem? b opt ≡ some 0 → Options b end opt absent
  filler :
      {opt : ℕ} {m : Mss}
      → opt < end
      → get_elem? b opt ≡ some 1
      → Options b end (opt + 1) m
      → Options b end opt m
  max_segment :
      {opt : ℕ}
      → opt < end
      → get_elem? b opt ≡ some 2
      → get_elem? b (opt + 1) ≡ some 4
      → Options b end opt (at opt)
  bad_segment :
      {opt : ℕ} (len : ℕ)
      → opt < end
      → get_elem? b opt ≡ some 2
      → get_elem? b (opt + 1) ≡ some len
      → len ≢ 4
      → Options b end opt bogus
  too_short :
      {opt : ℕ} (kind len : ℕ)
      → opt < end
      → get_elem? b opt ≡ some kind
      → 2 < kind
      → get_elem? b (opt + 1) ≡ some len
      → len < 2
      → Options b end opt bogus
  other :
      {opt : ℕ} {m : Mss} (kind len : ℕ)
      → opt < end
      → get_elem? b opt ≡ some kind
      → 2 < kind
      → get_elem? b (opt + 1) ≡ some len
      → 2 ≤ len
      → Options b end (opt + len) m
      → Options b end opt m

same_mss :
    (b : List ℕ) (end opt : ℕ) {m m' : Mss}
    → Options b end opt m
    → some m ≡ some m'
    → Options b end opt m'
same_mss b end opt h e = subst (Options b end opt) (some_inj e) h

pub find_mss-Options :
    (fuel : ℕ) (b : List ℕ) (opt end : ℕ) (m : Mss)
    → find_mss fuel b opt end ≡ some m
    → Options b end opt m
unfolding find_mss
find_mss-Options zero b opt end m e = cc
find_mss-Options (suc fuel) b opt end m e = elim (Bool-cases (ltb opt end)) [
  | inr c ↦ same_mss b end opt (past (ground arith)) (rw (find_mss, c) at e)
  | inl c ↦
      let (kind, q, e1) = >>=_some (get_elem? b opt) _ (rw (find_mss, c) at e) in
      let inside : opt < end = ground arith in
      elim (Bool-cases (kind == 0)) [
        | inl z ↦ same_mss b end opt (last inside (q ∙ ap some ((==_iff kind 0).0 z))) (rw z at e1)
        | inr z ↦ elim (Bool-cases (kind == 1)) [
          | inl o ↦
              filler inside (q ∙ ap some ((==_iff kind 1).0 o))
                (find_mss-Options fuel b (opt + 1) end m (rw (z, o) at e1))
          | inr o ↦
              let (len, q2, e2) = >>=_some (get_elem? b (opt + 1)) _ (rw (z, o) at e1) in
              long kind len inside q z o q2 (λ q3. find_mss-Options fuel b (opt + len) end m q3) e2
        ]
      ]
]
  where
    long :
        (kind len : ℕ)
        → opt < end
        → get_elem? b opt ≡ some kind
        → (kind == 0) ≡ false
        → (kind == 1) ≡ false
        → get_elem? b (opt + 1) ≡ some len
        → (find_mss fuel b (opt + len) end ≡ some m → Options b end (opt + len) m)
        → (if kind == 2
            then if len == 4 then some (at opt) else some bogus
            else if ltb len 2
            then some bogus
            else find_mss fuel b (opt + len) end)
          ≡ some m
        → Options b end opt m
    long kind len inside q z o q2 rest e = elim (Bool-cases (kind == 2)) [
      | inl two ↦
          let is_two = q ∙ ap some ((==_iff kind 2).0 two) in
          elim (Bool-cases (len == 4)) [
            | inl four ↦
                same_mss b end opt
                  (max_segment inside is_two (q2 ∙ ap some ((==_iff len 4).0 four)))
                  (rw (two, four) at e)
            | inr four ↦
                same_mss b end opt (bad_segment len inside is_two q2 (ground arith))
                  (rw (two, four) at e)
          ]
      | inr two ↦
          let big : 2 < kind = ground arith in
          elim (Bool-cases (ltb len 2)) [
            | inl less ↦
                same_mss b end opt (too_short kind len inside q big q2 (ground arith))
                  (rw (two, less) at e)
            | inr less ↦ other kind len inside q big q2 (ground arith) (rest (rw (two, less) at e))
          ]
    ]
