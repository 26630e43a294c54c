-- ===== src/Pppoe/Relay/Offers/Answers.antt =====
-- A packet with a tag that the relay wrote reaches the host that the tag names.
use zy_agf.Prelude.{
  ℕ, ◌^◌, ◌≤◌, ◌<◌, Bool, true, false, some, List, [], ◌∷◌, ◌++◌, get_elem?, length, ◌≡◌, ◌≢◌, refl,
  sym, subst, arith, ◌∙◌, ap,
}
use zy_agf.Pppoe.Packet.{Packet, tag_relay_session_id}
use zy_agf.Pppoe.Tags.{Tag, find_tag, is_sane}
use zy_agf.Pppoe.Tags.Parse.{Reads}
use zy_agf.Pppoe.Tags.Find.{locate, find_tag-Reads}
use zy_agf.Pppoe.Relay.{mac_eq}
use zy_agf.Pppoe.Relay.Table.{mac_eq_refl}
use zy_agf.Pppoe.Relay.Ports.{
  Interface, discovery_sock, not_unicast, broadcast, int_of, int_bytes, relay_tag,
}
use zy_agf.Pppoe.Relay.Offers.{Target, check_target, redirect, relay_handle_pado, relay_handle_padr}

int_of-int_bytes : (j : ℕ) (mac : List ℕ) → j < 2 ^ 32 → int_of (int_bytes j ++ mac) ≡ j
int_of-int_bytes j mac h = omega arith

-- A packet whose first relay tag is the relay's own one for the host `mac` behind the interface `j`.
pub record Tagged (serves : Interface → Bool) (ifaces : List Interface) (i j loc : ℕ) (mac : List ℕ)
    (f : Interface) (p : Packet) : Type 0 where
  pub tags : List Tag
  pub ok : Bool
  pub sane : is_sane p ≡ true
  pub fits : p.length ≤ length p.payload
  pub reads : Reads p tags ok
  pub first : locate tag_relay_session_id 0 tags ≡ some (loc, relay_tag j mac)
  pub index : j < 2 ^ 32
  pub address : length mac ≡ 6
  pub there : get_elem? ifaces j ≡ some f
  pub serving : serves f ≡ true
  pub other : i ≢ j

-- Where that tag points.
abbrev pub own_target : ℕ → ℕ → List ℕ → Interface → Target
own_target loc j mac f = record { loc = loc; tag = relay_tag j mac; index = j; iface = f }

check_target-Tagged :
    (serves : Interface → Bool) (ifaces : List Interface) (i j loc : ℕ) (mac : List ℕ)
    (f : Interface)
    → j < 2 ^ 32
    → length mac ≡ 6
    → get_elem? ifaces j ≡ some f
    → serves f ≡ true
    → i ≢ j
    → check_target serves ifaces i loc (relay_tag j mac) ≡ some (own_target loc j mac f)
unfolding check_target
check_target-Tagged serves ifaces i j loc mac f small six there serving other =
    rw (int_of-int_bytes j mac small, six, there, serving) (ground arith)

find_tag-Tagged :
    (serves : Interface → Bool) (ifaces : List Interface) (i j loc : ℕ) (mac : List ℕ)
    (f : Interface) (p : Packet)
    → Tagged serves ifaces i j loc mac f p
    → find_tag p tag_relay_session_id ≡ some (some (loc, relay_tag j mac))
find_tag-Tagged serves ifaces i j loc mac f p v =
    find_tag-Reads p tag_relay_session_id v.sane v.fits v.reads ∙ ap some v.first

mac_eq-same : (a b : List ℕ) → a ≡ b → mac_eq a b ≡ true
mac_eq-same a b e = subst (λ d. mac_eq d b ≡ true) (sym e) (mac_eq_refl b)

-- A PADO to the relay's address on an interface for access concentrators, from a source that is not a
-- broadcast address, whose first relay tag is the relay's own one for a client `mac` behind an interface
-- `j` for clients, goes out on `j` alone, to that client, from the address of `j`.
pub relay_handle_pado_to_client :
    (ifaces : List Interface) (i j loc size : ℕ) (iface f : Interface) (mac : List ℕ) (p : Packet)
    → iface.ac_ok ≡ true
    → broadcast p.source ≡ false
    → p.dest ≡ iface.mac
    → Tagged (λ g. g.client_ok) ifaces i j loc mac f p
    → let q = redirect i p (own_target loc j mac f) in
      (relay_handle_pado ifaces i iface p size
        ≡ some (record { sock = discovery_sock; interface = j; packet = q; size = size } ∷ []))
      × (q.dest ≡ mac)
      × (q.source ≡ f.mac)
unfolding relay_handle_pado redirect
relay_handle_pado_to_client ifaces i j loc size iface f mac p ac from to v =
    let found = find_tag-Tagged (λ g. g.client_ok) ifaces i j loc mac f p v in
    let checked =
      check_target-Tagged (λ g. g.client_ok) ifaces i j loc mac f v.index v.address v.there
        v.serving v.other in
    (rw (ac, from, mac_eq-same p.dest iface.mac to, found, checked), refl, refl)

-- A PADR to the relay's address on an interface for clients, from a unicast source, whose first relay tag
-- is the relay's own one for an access concentrator `mac` behind an interface `j` for access
-- concentrators, goes out on `j` alone, to that access concentrator, from the address of `j`.
pub relay_handle_padr_to_ac :
    (ifaces : List Interface) (i j loc size : ℕ) (iface f : Interface) (mac : List ℕ) (p : Packet)
    → iface.client_ok ≡ true
    → not_unicast p.source ≡ false
    → p.dest ≡ iface.mac
    → Tagged (λ g. g.ac_ok) ifaces i j loc mac f p
    → let q = redirect i p (own_target loc j mac f) in
      (relay_handle_padr ifaces i iface p size
        ≡ some (record { sock = discovery_sock; interface = j; packet = q; size = size } ∷ []))
      × (q.dest ≡ mac)
      × (q.source ≡ f.mac)
unfolding relay_handle_padr redirect
relay_handle_padr_to_ac ifaces i j loc size iface f mac p cli from to v =
    let found = find_tag-Tagged (λ g. g.ac_ok) ifaces i j loc mac f p v in
    let checked =
      check_target-Tagged (λ g. g.ac_ok) ifaces i j loc mac f v.index v.address v.there v.serving
        v.other in
    (rw (cli, from, mac_eq-same p.dest iface.mac to, found, checked), refl, refl)
