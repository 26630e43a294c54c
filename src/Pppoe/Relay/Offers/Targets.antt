-- ===== src/Pppoe/Relay/Offers/Targets.antt =====
-- Where a PADO and a PADR may go.
use zy_agf.Prelude.{
  All, ℕ, ◌≤◌, Bool, true, false, not, Option, none, some, List, [], if◌then◌else◌, get_elem?,
  length, ◌≡◌, ◌≢◌, refl, sym, subst, arith, ◌>>=◌, inl, inr, Option-cases, ◌⊎◌,
}
use zy_agf.Pppoe.Packet.{Packet, tag_relay_session_id}
use zy_agf.Pppoe.Tags.{Tag, find_tag}
use zy_agf.Pppoe.Relay.{mac_eq}
use zy_agf.Pppoe.Relay.Ports.{Interface, Sent, not_unicast, broadcast}
use zy_agf.Pppoe.Relay.Offers.{
  Target, check_target, relay_target, redirect, send_redirected, relay_handle_pado,
  relay_handle_padr,
}

-- A packet that goes out on another interface than it came in, one that serves, from its own address.
pub record GoesOut (serves : Interface → Bool) (ifaces : List Interface) (i : ℕ) (s : Sent)
    : Type 0 where
  pub other : i ≢ s.interface
  pub iface : Interface
  pub there : get_elem? ifaces s.interface ≡ some iface
  pub serving : serves iface ≡ true
  pub from : s.packet.source ≡ iface.mac

pub check_target_inv :
    (serves : Interface → Bool) (ifaces : List Interface) (i loc : ℕ) (t : Tag) {g : Target}
    → check_target serves ifaces i loc t ≡ some g
    → (get_elem? ifaces g.index ≡ some g.iface) × (serves g.iface ≡ true) × (i ≢ g.index)
unfolding check_target
check_target_inv serves ifaces i loc t e = ground arith

redirected-GoesOut :
    (serves : Interface → Bool) (ifaces : List Interface) (i : ℕ) (p : Packet) (size loc : ℕ)
    (t : Tag)
    → All (GoesOut serves ifaces i) (send_redirected i p size (check_target serves ifaces i loc t))
redirected-GoesOut serves ifaces i p size loc t =
    elim (Option-cases (check_target serves ifaces i loc t)) [
      | inl e ↦ rw e tt
      | inr (g, e) ↦
          let v = check_target_inv serves ifaces i loc t e in
          rw e (
            record {
              other = v.2;
              iface = g.iface;
              there = v.0;
              serving = v.1;
              from = unfold redirect in refl;
            },
            tt,
          )
    ]

-- A guard of a handler, and the step behind the guards, taken apart.
pub guard_inv :
    (b : Bool) (rest : Option (List Sent)) (sent : List Sent)
    → (if b then some [] else rest) ≡ some sent
    → (sent ≡ []) ⊎ (rest ≡ some sent)
guard_inv true rest sent e = inl (cc)
guard_inv false rest sent e = inr e

bind_inv :
    {A : Type 0} (m : Option A) (g : A → List Sent) (sent : List Sent)
    → (m >>= λ a. some (g a)) ≡ some sent
    → (a : A) × (m ≡ some a) × (g a ≡ sent)
bind_inv none g sent e = cc
bind_inv (some a) g sent e = (a, refl, cc)

-- What `GoesOut` and the number of packets come to, for the packets of a handler.
abbrev Fine : (Interface → Bool) → List Interface → ℕ → List Sent → Type 0
Fine serves ifaces i sent = All (GoesOut serves ifaces i) sent × (length sent ≤ 1)

target-Fine :
    (serves : Interface → Bool) (ifaces : List Interface) (i : ℕ) (p : Packet) (size : ℕ)
    (o : Option Target)
    → relay_target serves ifaces i p ≡ some o
    → Fine serves ifaces i (send_redirected i p size o)
unfolding relay_target
target-Fine serves ifaces i p size none e = (tt, omega arith)
target-Fine serves ifaces i p size (some g) e =
    let v : (loc : ℕ) × (t : Tag) × (check_target serves ifaces i loc t ≡ some g) =
      from_tag (find_tag p tag_relay_session_id) e in
    (
      subst (λ o. All (GoesOut serves ifaces i) (send_redirected i p size o)) v.2
          (redirected-GoesOut serves ifaces i p size v.0 v.1),
      omega arith,
    )
  where
    from_tag :
        (found : Option (Option (ℕ × Tag)))
        → (found >>= λ f. elim f [
          | none ↦ some none
          | some (loc, t) ↦ some (check_target serves ifaces i loc t)
        ])
          ≡ some (some g)
        → (loc : ℕ) × (t : Tag) × (check_target serves ifaces i loc t ≡ some g)
    from_tag none q = cc
    from_tag (some none) q = cc
    from_tag (some (some (loc, t))) q = (loc, t, cc)

handler-Fine :
    (serves : Interface → Bool) (ifaces : List Interface) (i : ℕ) (p : Packet) (size : ℕ)
    (a b c : Bool) (sent : List Sent)
    → (if a
        then some []
        else if b
        then some []
        else if c
        then some []
        else (relay_target serves ifaces i p >>= λ t. some (send_redirected i p size t)))
      ≡ some sent
    → Fine serves ifaces i sent
handler-Fine serves ifaces i p size a b c sent e =
    let last = relay_target serves ifaces i p >>= λ t. some (send_redirected i p size t) in
    elim (guard_inv a (if b then some [] else if c then some [] else last) sent e) [
      | inl z ↦ nothing z
      | inr e1 ↦ elim (guard_inv b (if c then some [] else last) sent e1) [
        | inl z ↦ nothing z
        | inr e2 ↦ elim (guard_inv c last sent e2) [
          | inl z ↦ nothing z
          | inr e3 ↦
              let (o, found, same) =
                bind_inv (relay_target serves ifaces i p) (send_redirected i p size) sent e3 in
              subst (Fine serves ifaces i) same (target-Fine serves ifaces i p size o found)
        ]
      ]
    ]
  where
    nothing : sent ≡ [] → Fine serves ifaces i sent
    nothing z = subst (Fine serves ifaces i) (sym z) (tt, omega arith)

-- For a PADO at most one packet goes out: on an interface for clients, another than the one that the PADO
-- came in on, and from that interface's address.
pub relay_handle_pado-GoesOut :
    (ifaces : List Interface) (i : ℕ) (iface : Interface) (p : Packet) (size : ℕ) {sent : List Sent}
    → relay_handle_pado ifaces i iface p size ≡ some sent
    → All (GoesOut (λ f. f.client_ok) ifaces i) sent × (length sent ≤ 1)
unfolding relay_handle_pado
relay_handle_pado-GoesOut ifaces i iface p size {sent} e =
    handler-Fine (λ f. f.client_ok) ifaces i p size (not iface.ac_ok) (broadcast p.source)
      (not (mac_eq p.dest iface.mac)) sent e

-- For a PADR at most one packet goes out: on an interface for access concentrators, another than the one
-- that the PADR came in on, and from that interface's address.
pub relay_handle_padr-GoesOut :
    (ifaces : List Interface) (i : ℕ) (iface : Interface) (p : Packet) (size : ℕ) {sent : List Sent}
    → relay_handle_padr ifaces i iface p size ≡ some sent
    → All (GoesOut (λ f. f.ac_ok) ifaces i) sent × (length sent ≤ 1)
unfolding relay_handle_padr
relay_handle_padr-GoesOut ifaces i iface p size {sent} e =
    handler-Fine (λ f. f.ac_ok) ifaces i p size (not iface.client_ok) (not_unicast p.source)
      (not (mac_eq p.dest iface.mac)) sent e
