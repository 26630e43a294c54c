-- ===== src/Xl2tpd/Access.antt =====
-- xl2tpd/aaa.c: `get_lns`, which LNS a peer may use, by the ranges of its access list.
pub mod Allowed
mod Tests
use zy_agf.Prelude.{ℕ, Bool, true, false, Option, none, some, List, [], ◌∷◌, if◌then◌else◌}
use zy_agf.Xl2tpd.Addresses.{IpRange, in_range}

-- The access list of `struct lns`.
pub record Lns : Type 0 where
  pub lacs : List IpRange

-- The loop over the ranges: the last one that holds the peer decides.
unfoldable pub permits : ℕ → Bool → List IpRange → Bool
permits peer allow [] = allow
permits peer allow (ipr ∷ rest) = permits peer (if in_range peer ipr then ipr.allow else allow) rest

-- The loop over `lnslist` and the default LNS behind it; `allow` is not reset between them.
unfoldable pub find_lns : ℕ → Bool → List Lns → Lns → Option Lns
unfolding permits
find_lns peer allow [] deflns = if permits peer allow deflns.lacs then some deflns else none
find_lns peer allow (lns ∷ rest) deflns =
    let allow' = permits peer allow lns.lacs in
    let later = find_lns peer allow' rest deflns in if allow' then some lns else later

unfoldable pub get_lns : Bool → ℕ → List Lns → Lns → Option Lns
unfolding find_lns
get_lns access_control peer lnslist deflns = elim (find_lns peer false lnslist deflns) [
  | some lns ↦ some lns
  | none ↦ if access_control then none else some deflns
]
