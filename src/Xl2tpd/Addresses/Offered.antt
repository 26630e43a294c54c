-- ===== src/Xl2tpd/Addresses/Offered.antt =====
-- xl2tpd/aaa.c: which addresses `get_addr` may give out.
use zy_agf.Prelude.{
  ℕ, Bool, true, false, not, ◌&&◌, ◌||◌, List, [], ◌∷◌, All, ◌≡◌, refl, ◌∙◌, arith, Bool-cases, inl,
  inr, ◌++◌, ap, ◌⊎◌, if◌then◌else◌,
}
use zy_agf.Xl2tpd.Addresses.{Table, IpRange, in_range, ip_used, status}

-- Whether an address is free and stays allowed by the later ranges.
abbrev pub free : Table → List IpRange → ℕ → Bool
free t later a = not (ip_used t a) && status a true later

-- Whether some range allows an address and it is free.
abbrev pub offered : Table → List IpRange → ℕ → Bool
offered t [] a = false
offered t (r ∷ later) a = (r.allow && in_range a r && free t later a) || offered t later a

-- What the later ranges say of an address, the last one that holds it being decisive.
pub data Stays (a : ℕ) : List IpRange → Type 0 where
  not_held : {later : List IpRange} → All (λ r. in_range a r ≡ false) later → Stays a later
  allowed_by :
      {later : List IpRange} (before : List IpRange) (r : IpRange) (after : List IpRange)
      → later ≡ before ++ (r ∷ after)
      → in_range a r ≡ true
      → r.allow ≡ true
      → All (λ q. in_range a q ≡ false) after
      → Stays a later

-- An address that some range allows, that no later range takes back, and that is not in use.
pub record Offered (t : Table) (ranges : List IpRange) (a : ℕ) : Type 0 where
  pub before : List IpRange
  pub range : IpRange
  pub later : List IpRange
  pub split : ranges ≡ before ++ (range ∷ later)
  pub allows : range.allow ≡ true
  pub holds : in_range a range ≡ true
  pub stays : Stays a later
  pub unused : ip_used t a ≡ false

-- The last range that holds the address, if any.
status-cases :
    (a : ℕ) (sense : Bool) (later : List IpRange)
    → status a sense later ≡ true
    → ((sense ≡ true) × All (λ r. in_range a r ≡ false) later)
      ⊎ ((before : List IpRange) × (r : IpRange) × (after : List IpRange) × (later
            ≡ before ++ (r ∷ after))
          × (in_range a r ≡ true)
          × (r.allow ≡ true)
          × All (λ q. in_range a q ≡ false) after)
unfolding status
status-cases a sense [] h = inl (h, tt)
status-cases a sense (r ∷ later) h = elim (Bool-cases (in_range a r)) [
  | inl e ↦ elim (status-cases a r.allow later (rw e at h)) [
    | inl (s, k) ↦ inr ([], r, later, refl, e, s, k)
    | inr (before, q, after, x, y, z, k) ↦ inr (r ∷ before, q, after, ap (λ l. r ∷ l) x, y, z, k)
  ]
  | inr e ↦ elim (status-cases a sense later (rw e at h)) [
    | inl (s, k) ↦ inl (s, (e, k))
    | inr (before, q, after, x, y, z, k) ↦ inr (r ∷ before, q, after, ap (λ l. r ∷ l) x, y, z, k)
  ]
]

status-not_held :
    (a : ℕ) (sense : Bool) (later : List IpRange)
    → All (λ r. in_range a r ≡ false) later
    → status a sense later ≡ sense
unfolding status
status-not_held a sense [] h = refl
status-not_held a sense (r ∷ later) (e, h) = rw e (status-not_held a sense later h)

status-decided :
    (a : ℕ) (sense : Bool) (before : List IpRange) (r : IpRange) (after : List IpRange)
    → in_range a r ≡ true
    → All (λ q. in_range a q ≡ false) after
    → status a sense (before ++ (r ∷ after)) ≡ r.allow
unfolding status
status-decided a sense [] r after e k = rw (status, e) (status-not_held a r.allow after k)
status-decided a sense (q ∷ before) r after e k =
    status-decided a (if in_range a q then q.allow else sense) before r after e k

status-Stays : (a : ℕ) (later : List IpRange) → status a true later ≡ true → Stays a later
status-Stays a later h = elim (status-cases a true later h) [
  | inl (s, k) ↦ not_held k
  | inr (before, r, after, x, y, z, k) ↦ allowed_by before r after x y z k
]

Stays-status : (a : ℕ) (later : List IpRange) → Stays a later → status a true later ≡ true
Stays-status a later (not_held k) = status-not_held a true later k
Stays-status a later (allowed_by before r after x y z k) =
    rw x (status-decided a true before r after y k ∙ z)

Offered-later :
    (t : Table) (r : IpRange) (later : List IpRange) (a : ℕ)
    → Offered t later a
    → Offered t (r ∷ later) a
Offered-later t r later a o = record {
  before = r ∷ o.before;
  range = o.range;
  later = o.later;
  split = ap (λ l. r ∷ l) o.split;
  allows = o.allows;
  holds = o.holds;
  stays = o.stays;
  unused = o.unused;
}

pub offered-Offered :
    (t : Table) (ranges : List IpRange) (a : ℕ) → offered t ranges a ≡ true → Offered t ranges a
offered-Offered t [] a h = cc
offered-Offered t (r ∷ later) a h = elim (Bool-cases (r.allow && in_range a r && free t later a)) [
  | inr no_hit ↦ Offered-later t r later a (offered-Offered t later a (rw no_hit at h))
  | inl hit ↦ record {
    before = [];
    range = r;
    later = later;
    split = refl;
    allows = ground arith;
    holds = ground arith;
    stays = status-Stays a later (ground arith);
    unused = ground arith;
  }
]

Offered-offered_at :
    (t : Table) (before : List IpRange) (r : IpRange) (later : List IpRange) (a : ℕ)
    → r.allow ≡ true
    → in_range a r ≡ true
    → free t later a ≡ true
    → offered t (before ++ (r ∷ later)) a ≡ true
Offered-offered_at t [] r later a x y z = rw (x, y, z) refl
Offered-offered_at t (q ∷ before) r later a x y z =
    let h = Offered-offered_at t before r later a x y z in ground arith

pub Offered-offered :
    (t : Table) (ranges : List IpRange) (a : ℕ) → Offered t ranges a → offered t ranges a ≡ true
Offered-offered t ranges a o =
    let s = Stays-status a o.later o.stays in
    let f : free t o.later a ≡ true = rw (s, o.unused) refl in
    rw o.split (Offered-offered_at t o.before o.range o.later a o.allows o.holds f)
