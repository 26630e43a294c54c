-- ===== src/Xl2tpd/Addresses.antt =====
-- xl2tpd/aaa.c: the table of the addresses in use, and the choice of one from the configured ranges. An
-- address in network order is the number on the wire.
pub mod InUse
pub mod Offered
pub mod Choice
mod Tests
use zy_agf.Prelude.{
  ℕ, zero, suc, ◌+◌, ◌^◌, ◌%◌, Bool, true, false, not, ◌&&◌, Option, none, some, List, [], ◌∷◌,
  ◌==◌, ltb, leb, if◌then◌else◌,
}

-- `uaddr`: the chain of each hash value.
abbrev pub Table : Type 0
Table = ℕ → List ℕ

abbrev pub addr_hash_size : ℕ
addr_hash_size = 256

abbrev pub put : Table → ℕ → List ℕ → Table
put t b chain b' = if b == b' then chain else t b'

unfoldable pub init_addr : Table
init_addr b = []

-- The loop of `ip_used` over a chain.
unfoldable pub in_chain : ℕ → List ℕ → Bool
in_chain addr [] = false
in_chain addr (x ∷ chain) = if x == addr then true else in_chain addr chain

unfoldable pub ip_used : Table → ℕ → Bool
unfolding in_chain
ip_used t addr = in_chain addr (t (addr % addr_hash_size))

unfoldable pub reserve_addr : ℕ → Table → Table
unfolding ip_used
reserve_addr addr t =
    if ip_used t addr then t else put t (addr % addr_hash_size) (addr ∷ t (addr % addr_hash_size))

-- The loop of `unreserve_addr`, which does not stop at the first node.
unfoldable pub unchain : ℕ → List ℕ → List ℕ
unchain addr [] = []
unchain addr (x ∷ chain) = let rest = unchain addr chain in if x == addr then rest else x ∷ rest

unfoldable pub unreserve_addr : ℕ → Table → Table
unfolding unchain
unreserve_addr addr t = put t (addr % addr_hash_size) (unchain addr (t (addr % addr_hash_size)))

-- `struct iprange`; `allow` is whether `sense` is SENSE_ALLOW.
pub record IpRange : Type 0 where
  pub start : ℕ
  pub end : ℕ
  pub allow : Bool

abbrev pub in_range : ℕ → IpRange → Bool
in_range x r = leb r.start x && leb x r.end

-- The status of an address after the later ranges.
unfoldable pub status : ℕ → Bool → List IpRange → Bool
status x sense [] = sense
status x sense (r ∷ later) = status x (if in_range x r then r.allow else sense) later

-- The loop over the addresses of a range, from `x` on; `none` is out of fuel.
unfoldable pub search_range : Table → List IpRange → ℕ → ℕ → ℕ → Option (Option ℕ)
unfolding ip_used status
search_range t later last zero x = none
search_range t later last (suc fuel) x =
    let rest = search_range t later last fuel ((x + 1) % 2 ^ 32) in
    if leb x last
    then (if not (ip_used t x) && status x true later then some (some x) else rest)
    else some none

unfoldable pub get_addr : ℕ → Table → List IpRange → Option ℕ
unfolding search_range
get_addr fuel t [] = some 0
get_addr fuel t (r ∷ later) =
    let rest = get_addr fuel t later in
    if r.allow
    then elim (search_range t later r.end fuel r.start) [
      | none ↦ none
      | some found ↦ elim found [ none ↦ rest | some x ↦ some x ]
    ]
    else rest
