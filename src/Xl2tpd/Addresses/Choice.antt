-- ===== src/Xl2tpd/Addresses/Choice.antt =====
-- What `get_addr` gives out.
use zy_agf.Prelude.{
  some_inj, ℕ, zero, suc, ◌+◌, ◌^◌, ◌%◌, ◌≤◌, ◌<◌, Bool, true, false, not, ◌&&◌, ◌||◌, Option, none,
  some, List, [], ◌∷◌, ◌==◌, leb, All, ◌≡◌, ◌≢◌, refl, sym, ◌∙◌, arith, Bool-cases, inl, inr,
  ==_iff, leb→le,
}
use zy_agf.Xl2tpd.Addresses.{
  Table, IpRange, in_range, ip_used, status, search_range, get_addr, reserve_addr,
}
use zy_agf.Xl2tpd.Addresses.InUse.{ip_used-reserve_addr}
use zy_agf.Xl2tpd.Addresses.Offered.{free, offered, Offered, offered-Offered, Offered-offered}

-- What `get_addr` gives: an address that is offered, or 0 where none is.
pub data Given (t : Table) (ranges : List IpRange) : ℕ → Type 0 where
  no_address : ((a : ℕ) → ¬ Offered t ranges a) → Given t ranges 0
  address : (a : ℕ) → Offered t ranges a → Given t ranges a

data Got (t : Table) (ranges : List IpRange) : ℕ → Type 0 where
  nothing : ((a : ℕ) → offered t ranges a ≡ false) → Got t ranges 0
  got : (a : ℕ) → offered t ranges a ≡ true → Got t ranges a

data Searched (t : Table) (later : List IpRange) (last x : ℕ) : Option ℕ → Type 0 where
  missed : ((a : ℕ) → x ≤ a → a ≤ last → free t later a ≡ false) → Searched t later last x none
  hit : (a : ℕ) → x ≤ a → a ≤ last → free t later a ≡ true → Searched t later last x (some a)

Searched-next :
    (t : Table) (later : List IpRange) (last x : ℕ) (o : Option ℕ)
    → free t later x ≡ false
    → Searched t later last (x + 1) o
    → Searched t later last x o
Searched-next t later last x none h (missed k) = missed (λ a l u. elim (Bool-cases (a == x)) [
  | inl e ↦ let q : a ≡ x = (==_iff a x).0 e in rw q h
  | inr e ↦ k a (ground arith) u
])
Searched-next t later last x (some _) h (hit a l u f) = hit a (omega arith) u f

Searched-later :
    (t : Table) (later : List IpRange) (last fuel x : ℕ)
    → leb x last ≡ true
    → free t later x ≡ false
    → (x + 1) % 2 ^ 32 ≡ x + 1
    → (o : Option ℕ) × (search_range t later last fuel (x + 1) ≡ some o)
      × Searched t later last (x + 1) o
    → (o : Option ℕ) × (search_range t later last (suc fuel) x ≡ some o) × Searched t later last x o
unfolding search_range
Searched-later t later last fuel x e h step (o, q, k) =
    (o, unfold ip_used status in rw (e, h, step) q, Searched-next t later last x o h k)

search_range-Searched :
    (t : Table) (later : List IpRange) (last fuel x : ℕ)
    → last + 1 < 2 ^ 32
    → x < 2 ^ 32
    → last + 1 < x + fuel
    → 0 < fuel
    → (o : Option ℕ) × (search_range t later last fuel x ≡ some o) × Searched t later last x o
unfolding search_range
search_range-Searched t later last zero x s small f p = absurd (omega arith)
search_range-Searched t later last (suc fuel) x s small f p = elim (Bool-cases (leb x last)) [
  | inr e ↦ (none, rw e refl, missed (λ a l u. absurd (ground arith)))
  | inl e ↦ elim (Bool-cases (free t later x)) [
    | inl h ↦
        (some x, unfold ip_used status in rw (e, h) refl, hit x (omega arith) (ground arith) h)
    | inr h ↦
        let within = leb→le x last e in
        let within = leb→le x last e in
        Searched-later t later last fuel x e h (omega (arith, within)) (
          search_range-Searched t later last fuel (x + 1) s (omega (arith, within))
            (omega (arith, within)) (omega (arith, within)))
  ]
]

-- A configured range: 32-bit addresses, of which the last is not 255.255.255.255.
pub record IsRange (r : IpRange) : Type 0 where
  pub start_fits : r.start < 2 ^ 32
  pub end_fits : r.end + 1 < 2 ^ 32

range_missed :
    (r : IpRange) (f : ℕ → Bool)
    → ((a : ℕ) → r.start ≤ a → a ≤ r.end → f a ≡ false)
    → (b : ℕ) → (r.allow && in_range b r && f b) ≡ false
range_missed r f m b = elim (Bool-cases (in_range b r)) [
  | inl e ↦ rw (m b (ground arith) (ground arith)) (ground arith)
  | inr e ↦ rw e (ground arith)
]

range_hit :
    (r : IpRange) (f : ℕ → Bool) (y : ℕ) (rest : Bool)
    → r.allow ≡ true
    → r.start ≤ y
    → y ≤ r.end
    → f y ≡ true
    → (r.allow && in_range y r && f y || rest) ≡ true
range_hit r f y rest a l u h = ground arith

Got-later :
    (t : Table) (r : IpRange) (later : List IpRange) (x : ℕ)
    → ((a : ℕ) → (r.allow && in_range a r && free t later a) ≡ false)
    → Got t later x
    → Got t (r ∷ later) x
Got-later t r later _ none_here (nothing k) =
    nothing (λ a. let h = none_here a in let l = k a in rw (h, l) refl)
Got-later t r later x none_here (got _ f) = got x (let h = none_here x in rw (h, f) refl)

-- The search against the Boolean description.
get_addr-search :
    (t : Table) (ranges : List IpRange) (fuel : ℕ)
    → All IsRange ranges
    → 2 ^ 32 ≤ fuel
    → (x : ℕ) × (get_addr fuel t ranges ≡ some x) × Got t ranges x
unfolding get_addr
get_addr-search t [] fuel ok enough = (0, refl, nothing (λ a. refl))
get_addr-search t (r ∷ later) fuel (k, ok) enough =
    let (x, q, g) = get_addr-search t later fuel ok enough in
    elim (Bool-cases r.allow) [
      | inr deny ↦ (x, rw deny q, Got-later t r later x (λ a. rw deny refl) g)
      | inl allow ↦
          let (o, s, found) =
            search_range-Searched t later r.end fuel r.start k.end_fits k.start_fits
              (omega (arith, k.end_fits)) (omega arith) in
          allowed allow x q g o s found
    ]
  where
    allowed :
        r.allow ≡ true
        → (x : ℕ) → get_addr fuel t later ≡ some x
        → Got t later x
        → (o : Option ℕ) → search_range t later r.end fuel r.start ≡ some o
        → Searched t later r.end r.start o
        → (y : ℕ) × (get_addr fuel t (r ∷ later) ≡ some y) × Got t (r ∷ later) y
    allowed a x q g none s (missed m) = (
      x,
      unfold search_range in rw (a, s, q) refl,
      Got-later t r later x (range_missed r (free t later) m) g,
    )
    allowed a x q g (some _) s (hit y l u f) = (
      y,
      unfold search_range in rw (a, s) refl,
      got y (range_hit r (free t later) y (offered t later y) a l u f),
    )

Got-Given : (t : Table) (ranges : List IpRange) (x : ℕ) → Got t ranges x → Given t ranges x
Got-Given t ranges _ (nothing k) =
    no_address (λ a o. let yes = Offered-offered t ranges a o in let no = k a in cc)
Got-Given t ranges _ (got a f) = address a (offered-Offered t ranges a f)

-- Where no range ends at 255.255.255.255, 2^32 rounds for each range are enough: `get_addr` returns, and
-- gives an address that is not in use, that some range allows, and that the last one of the later ranges
-- that hold it, if any, allows too; or it gives 0 and there is no such address.
pub get_addr-Got :
    (t : Table) (ranges : List IpRange) (fuel : ℕ)
    → All IsRange ranges
    → 2 ^ 32 ≤ fuel
    → (x : ℕ) × (get_addr fuel t ranges ≡ some x) × Given t ranges x
get_addr-Got t ranges fuel ok enough =
    let (x, q, g) = get_addr-search t ranges fuel ok enough in (x, q, Got-Given t ranges x g)

offered-ip_used :
    (t : Table) (ranges : List IpRange) (a : ℕ) → offered t ranges a ≡ true → ip_used t a ≡ false
offered-ip_used t [] a h = cc
offered-ip_used t (r ∷ later) a h = elim (Bool-cases (ip_used t a)) [
  | inr unused ↦ unused
  | inl u ↦
      offered-ip_used t later a
        (first (r.allow && in_range a r) (status a true later) (offered t later a) u h)
]
  where
    first :
        (in_range allowed rest : Bool)
        → ip_used t a ≡ true
        → (in_range && (not (ip_used t a) && allowed) || rest) ≡ true
        → rest ≡ true
    first in_range allowed rest u e = ground arith

-- An address that is reserved is not given out: where no range ends at 255.255.255.255 and there are 2^32
-- rounds for a range, a call of `get_addr` after `reserve_addr` that does not give 0 gives another
-- address.
pub get_addr-reserve_addr :
    (t : Table) (ranges : List IpRange) (fuel x y : ℕ)
    → All IsRange ranges
    → 2 ^ 32 ≤ fuel
    → get_addr fuel (reserve_addr x t) ranges ≡ some y
    → y ≢ 0
    → y ≢ x
get_addr-reserve_addr t ranges fuel x y ok enough q positive same =
    let (z, e, g) = get_addr-search (reserve_addr x t) ranges fuel ok enough in
    let zy : z ≡ y = some_inj (sym e ∙ q) in free_again z (zy ∙ same) g (λ o. positive (sym zy ∙ o))
  where
    free_again : (z : ℕ) → z ≡ x → Got (reserve_addr x t) ranges z → z ≢ 0 → ⊥
    free_again _ s (nothing k) p = p refl
    free_again z s (got _ f) p =
        let unused = offered-ip_used (reserve_addr x t) ranges z f in
        let used = ip_used-reserve_addr t x z in ground arith
