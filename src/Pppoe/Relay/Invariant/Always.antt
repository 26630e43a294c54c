-- ===== src/Pppoe/Relay/Invariant/Always.antt =====
-- All that can happen to the relay, as steps, and what holds at every table that it can reach.
use zy_agf.Prelude.{
  ℕ, ◌+◌, ◌<◌, Bool, true, false, not, Option, none, some, List, [], ◌==◌, if◌then◌else◌, length,
  ◌≡◌, refl, Bool-cases, inl, inr, ◌>>=◌,
}
use zy_agf.Pppoe.Packet.{
  Packet, eth_jumbo_len, tag_relay_session_id, tag_hdr_size, code_padi, code_pado, code_padr,
  code_pads, code_padt,
}
use zy_agf.Pppoe.Tags.{Tag, find_tag}
use zy_agf.Pppoe.Bytes.{add_tag}
use zy_agf.Pppoe.Relay.{Relay, mac_eq}
use zy_agf.Pppoe.Relay.Ports.{
  Interface, Sent, not_unicast, broadcast, checked_size, relay_tag, my_relay_tag_len,
}
use zy_agf.Pppoe.Relay.Offers.{
  broadcast_on, relay_target, redirect, send_redirected, relay_handle_padi, relay_handle_pado,
  relay_handle_padr,
}
use zy_agf.Pppoe.Relay.Handlers.{with_table, dispatch, relay_got_discovery_packet}
use zy_agf.Pppoe.Relay.Invariant.{IsValid}
use zy_agf.Pppoe.Relay.Invariant.Steps.{Keeps, same-Keeps, relay_handle_padt-IsValid}
use zy_agf.Pppoe.Relay.Invariant.Discovery.{
  find_tag_total, relay_target_total, relay_handle_pads-IsValid,
}

-- A handler that leaves the table alone, and returns.
abbrev Returns : Option (List Sent) → Type 0
Returns o = (sent : List Sent) × (o ≡ some sent)

guard-Returns : (b : Bool) (o : Option (List Sent)) → Returns o → Returns (if b then some [] else o)
guard-Returns true o k = ([], refl)
guard-Returns false o k = k

with_table-Keeps :
    (n : ℕ) (r : Relay) (o : Option (List Sent))
    → IsValid n r
    → Returns o
    → Keeps n (with_table r o)
with_table-Keeps n r o v (sent, e) = rw e (same-Keeps n r sent v)

padi_total :
    (ifaces : List Interface) (i : ℕ) (iface : Interface) (p : Packet) (size : ℕ)
    → length p.payload ≡ eth_jumbo_len
    → Returns (relay_handle_padi ifaces i iface p size)
unfolding relay_handle_padi
padi_total ifaces i iface p size whole =
    let added = add_tag p (relay_tag i p.source) in
    let last : Option (List Sent) = find_tag p tag_relay_session_id >>= λ f. elim f [
      | some _ ↦ some []
      | none ↦ elim added [
        | none ↦ some []
        | some p' ↦ some (broadcast_on i p' (size + my_relay_tag_len + tag_hdr_size) 0 ifaces)
      ]
    ] in
    let (o, e) = find_tag_total p tag_relay_session_id whole in
    let k3 : Returns last = rw e (found o added) in
    let k2 = guard-Returns (not (broadcast p.dest)) last k3 in
    let k1 =
      guard-Returns (not_unicast p.source) (if not (broadcast p.dest) then some [] else last) k2 in
    unfold broadcast_on broadcast in
    guard-Returns (not iface.client_ok)
      (if not_unicast p.source then some [] else if not (broadcast p.dest) then some [] else last)
      k1
  where
    found :
        (o : Option (ℕ × Tag)) (a : Option Packet)
        → Returns (elim o [
          | some _ ↦ some []
          | none ↦ elim a [
            | none ↦ some []
            | some p' ↦ some (broadcast_on i p' (size + my_relay_tag_len + tag_hdr_size) 0 ifaces)
          ]
        ])
    found (some x) a = ([], refl)
    found none none = ([], refl)
    found none (some p') =
        (broadcast_on i p' (size + my_relay_tag_len + tag_hdr_size) 0 ifaces, refl)

redirected_total :
    (serves : Interface → Bool) (ifaces : List Interface) (i : ℕ) (p : Packet) (size : ℕ)
    (a b c : Bool)
    → length p.payload ≡ eth_jumbo_len
    → Returns (
        if a
        then some []
        else if b
        then some []
        else if c
        then some []
        else (relay_target serves ifaces i p >>= λ t. some (send_redirected i p size t)))
redirected_total serves ifaces i p size a b c whole =
    let last = relay_target serves ifaces i p >>= λ t. some (send_redirected i p size t) in
    let (o, e, x) = relay_target_total serves ifaces i p whole in
    let k3 : Returns last = (send_redirected i p size o, rw e) in
    let k2 = guard-Returns c last k3 in
    let k1 = guard-Returns b (if c then some [] else last) k2 in
    guard-Returns a (if b then some [] else if c then some [] else last) k1

pado_total :
    (ifaces : List Interface) (i : ℕ) (iface : Interface) (p : Packet) (size : ℕ)
    → length p.payload ≡ eth_jumbo_len
    → Returns (relay_handle_pado ifaces i iface p size)
unfolding relay_handle_pado
pado_total ifaces i iface p size whole =
    unfold relay_target redirect broadcast in
    redirected_total (λ f. f.client_ok) ifaces i p size (not iface.ac_ok) (broadcast p.source)
      (not (mac_eq p.dest iface.mac)) whole

padr_total :
    (ifaces : List Interface) (i : ℕ) (iface : Interface) (p : Packet) (size : ℕ)
    → length p.payload ≡ eth_jumbo_len
    → Returns (relay_handle_padr ifaces i iface p size)
unfolding relay_handle_padr
padr_total ifaces i iface p size whole =
    unfold relay_target redirect in
    redirected_total (λ f. f.ac_ok) ifaces i p size (not iface.client_ok) (not_unicast p.source)
      (not (mac_eq p.dest iface.mac)) whole

dispatch-Keeps :
    (stack err_msg : List ℕ) (ifaces : List Interface) (i : ℕ) (iface : Interface) (p : Packet)
    (size : ℕ) (r : Relay)
    → length p.payload ≡ eth_jumbo_len
    → IsValid (length ifaces) r
    → i < length ifaces
    → Keeps (length ifaces) (dispatch stack err_msg ifaces i iface p size r)
unfolding dispatch
dispatch-Keeps stack err_msg ifaces i iface p size r whole v a =
    let n = length ifaces in
    elim (Bool-cases (p.code == code_padt)) [
      | inl e ↦ rw e (relay_handle_padt-IsValid ifaces iface p size r v)
      | inr t ↦ elim (Bool-cases (p.code == code_padi)) [
        | inl e ↦
            rw (t, e)
              (with_table-Keeps n r (relay_handle_padi ifaces i iface p size) v
                (padi_total ifaces i iface p size whole))
        | inr not_padi ↦ elim (Bool-cases (p.code == code_pado)) [
          | inl e ↦
              rw (t, not_padi, e)
                (with_table-Keeps n r (relay_handle_pado ifaces i iface p size) v
                  (pado_total ifaces i iface p size whole))
          | inr not_pado ↦ elim (Bool-cases (p.code == code_padr)) [
            | inl e ↦
                rw (t, not_padi, not_pado, e)
                  (with_table-Keeps n r (relay_handle_padr ifaces i iface p size) v
                    (padr_total ifaces i iface p size whole))
            | inr not_padr ↦ elim (Bool-cases (p.code == code_pads)) [
              | inl e ↦
                  rw (t, not_padi, not_pado, not_padr, e)
                    (relay_handle_pads-IsValid stack err_msg ifaces i iface p size r whole v a)
              | inr not_pads ↦ rw (t, not_padi, not_pado, not_padr, not_pads) (same-Keeps n r [] v)
            ]
          ]
        ]
      ]
    ]

discovery_sized :
    (stack err_msg : List ℕ) (ifaces : List Interface) (i : ℕ) (iface : Interface) (p : Packet)
    (r : Relay) (o : Option ℕ)
    → length p.payload ≡ eth_jumbo_len
    → IsValid (length ifaces) r
    → i < length ifaces
    → Keeps (length ifaces) (elim o [
      | none ↦ some ([], r)
      | some size' ↦ dispatch stack err_msg ifaces i iface p size' r
    ])
discovery_sized stack err_msg ifaces i iface p r none whole v a = same-Keeps (length ifaces) r [] v
discovery_sized stack err_msg ifaces i iface p r (some size) whole v a =
    dispatch-Keeps stack err_msg ifaces i iface p size r whole v a

-- On a well-formed table, a frame of any contents and any length, in an array of 1508 bytes of payload, on
-- the discovery socket of an interface that exists, is handled to its end, with no fault, and the table
-- stays well formed.
pub relay_got_discovery_packet-IsValid :
    (stack err_msg : List ℕ) (ifaces : List Interface) (i : ℕ) (iface : Interface) (p : Packet)
    (size : ℕ) (r : Relay)
    → length p.payload ≡ eth_jumbo_len
    → IsValid (length ifaces) r
    → i < length ifaces
    → Keeps (length ifaces) (relay_got_discovery_packet stack err_msg ifaces i iface p size r)
unfolding relay_got_discovery_packet
relay_got_discovery_packet-IsValid stack err_msg ifaces i iface p size r whole v a =
    unfold checked_size dispatch in
    discovery_sized stack err_msg ifaces i iface p r (checked_size p size) whole v a
