-- ===== src/Xl2tpd/Access/Allowed.antt =====
-- What `get_lns` gives under access control.
use zy_agf.Prelude.{
  ℕ, Bool, true, false, Option, none, some, List, [], ◌∷◌, ◌++◌, All, ◌≡◌, ◌⊎◌, inl, inr, refl, ap,
  subst, Bool-cases, some_inj,
}
use zy_agf.Xl2tpd.Addresses.{IpRange, in_range}
use zy_agf.Xl2tpd.Access.{Lns, permits, find_lns, get_lns}

-- Some range allows the peer, and no later range holds it.
pub record Allowed (peer : ℕ) (ranges : List IpRange) : Type 0 where
  pub earlier : List IpRange
  pub range : IpRange
  pub later : List IpRange
  pub split : ranges ≡ earlier ++ (range ∷ later)
  pub held : in_range peer range ≡ true
  pub allows : range.allow ≡ true
  pub last : All (λ r. in_range peer r ≡ false) later

permits-Allowed :
    (peer : ℕ) (allow : Bool) (ranges : List IpRange)
    → permits peer allow ranges ≡ true
    → ((allow ≡ true) × All (λ r. in_range peer r ≡ false) ranges) ⊎ Allowed peer ranges
unfolding permits
permits-Allowed peer allow [] e = inl (e, tt)
permits-Allowed peer allow (r ∷ rest) e = elim (Bool-cases (in_range peer r)) [
  | inl h ↦ elim (permits-Allowed peer r.allow rest (rw h at e)) [
    | inl (a, l) ↦ inr (record {
      earlier = [];
      range = r;
      later = rest;
      split = refl;
      held = h;
      allows = a;
      last = l;
    })
    | inr k ↦ inr (later_Allowed r rest k)
  ]
  | inr h ↦ elim (permits-Allowed peer allow rest (rw h at e)) [
    | inl (a, l) ↦ inl (a, (h, l))
    | inr k ↦ inr (later_Allowed r rest k)
  ]
]
  where
    later_Allowed :
        (r : IpRange) (rest : List IpRange) → Allowed peer rest → Allowed peer (r ∷ rest)
    later_Allowed r rest k = record {
      earlier = r ∷ k.earlier;
      range = k.range;
      later = k.later;
      split = ap (λ xs. r ∷ xs) k.split;
      held = k.held;
      allows = k.allows;
      last = k.last;
    }

permits_only :
    (peer : ℕ) (ranges : List IpRange) → permits peer false ranges ≡ true → Allowed peer ranges
permits_only peer ranges e = elim (permits-Allowed peer false ranges e) [
  | inl (a, l) ↦ cc
  | inr k ↦ k
]

find_lns-Allowed :
    (peer : ℕ) (lnslist : List Lns) (deflns lns : Lns)
    → find_lns peer false lnslist deflns ≡ some lns
    → Allowed peer lns.lacs
unfolding find_lns
find_lns-Allowed peer [] deflns lns e = elim (Bool-cases (permits peer false deflns.lacs)) [
  | inl h ↦
      let q : deflns ≡ lns = some_inj (rw (find_lns, h) at e) in
      subst (λ (l : Lns). Allowed peer l.lacs) q (permits_only peer deflns.lacs h)
  | inr h ↦ let q = rw (find_lns, h) at e in cc
]
find_lns-Allowed peer (first ∷ rest) deflns lns e =
    elim (Bool-cases (permits peer false first.lacs)) [
      | inl h ↦
          let q : first ≡ lns = some_inj (rw (find_lns, h) at e) in
          subst (λ (l : Lns). Allowed peer l.lacs) q (permits_only peer first.lacs h)
      | inr h ↦ find_lns-Allowed peer rest deflns lns (rw (find_lns, h) at e)
    ]

-- With access control, an LNS is given to a peer only if some range of its access list allows the peer, and
-- no later range of the list holds it.
pub get_lns-Allowed :
    (peer : ℕ) (lnslist : List Lns) (deflns lns : Lns)
    → get_lns true peer lnslist deflns ≡ some lns
    → Allowed peer lns.lacs
unfolding get_lns
get_lns-Allowed peer lnslist deflns lns e =
    given (find_lns peer false lnslist deflns) (λ l q. find_lns-Allowed peer lnslist deflns l q) e
  where
    given :
        (o : Option Lns)
        → ((l : Lns) → o ≡ some l → Allowed peer l.lacs)
        → elim o [ none ↦ none | some l ↦ some l ] ≡ some lns
        → Allowed peer lns.lacs
    given none k e = cc
    given (some l) k e = k lns e
