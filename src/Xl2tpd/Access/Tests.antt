-- ===== src/Xl2tpd/Access/Tests.antt =====
-- Tests and examples of the access lists.
use zy_agf.Prelude.{true, false, some, none, [], ◌∷◌, ◌≡◌, refl}
use zy_agf.Xl2tpd.Access.{Lns, permits, find_lns, get_lns}
use zy_agf.Xl2tpd.Access.Allowed.{Allowed, get_lns-Allowed}

abbrev office : Lns
office = record {
  lacs =
      record { start = 10; end = 20; allow = true }
      ∷ record { start = 15; end = 15; allow = false }
      ∷ [];
}

abbrev default : Lns
default = record { lacs = [] }

allowed : get_lns true 12 (office ∷ []) default ≡ some office
unfolding get_lns find_lns permits
allowed = refl

denied : get_lns true 15 (office ∷ []) default ≡ none
unfolding get_lns find_lns permits
denied = refl

get_lns-Allowed_example : Allowed 12 office.lacs
get_lns-Allowed_example = get_lns-Allowed 12 (office ∷ []) default office allowed
