-- ===== src/Pppoe/Relay/Offers.antt =====
-- rp-pppoe/src/relay.c: the handlers of PADI, PADO and PADR, which leave the table of sessions alone. The
-- result is what they send; `none` is a fault.
pub mod Targets
pub mod Padi
pub mod Answers
mod Tests
use zy_agf.Prelude.{
  ℕ, ◌+◌, Bool, not, Option, none, some, List, [], ◌∷◌, ◌==◌, if◌then◌else◌, get_elem?, length,
  drop, ◌>>=◌,
}
use zy_agf.Pppoe.Packet.{Packet, tag_hdr_size, tag_relay_session_id}
use zy_agf.Pppoe.Tags.{Tag, find_tag}
use zy_agf.Pppoe.Bytes.{memcpy, add_tag}
use zy_agf.Pppoe.Relay.{mac_eq}
use zy_agf.Pppoe.Relay.Ports.{
  Interface, Sent, not_unicast, broadcast, int_bytes, int_of, my_relay_tag_len, relay_tag,
  discovery_sock,
}

-- The loop at the end of `relayHandlePADI`; `j` is the index of the first interface of the list.
unfoldable pub broadcast_on : ℕ → Packet → ℕ → ℕ → List Interface → List Sent
broadcast_on i p size j [] = []
broadcast_on i p size j (f ∷ rest) =
    let later = broadcast_on i p size (j + 1) rest in
    if i == j
    then later
    else if not f.ac_ok
    then later
    else record {
      sock = discovery_sock;
      interface = j;
      packet = record p { source = f.mac };
      size = size;
    }
      ∷ later

unfoldable pub relay_handle_padi : List Interface → ℕ → Interface → Packet → ℕ → Option (List Sent)
unfolding broadcast_on broadcast
relay_handle_padi ifaces i iface p size =
    if not iface.client_ok
    then some []
    else if not_unicast p.source
    then some []
    else if not (broadcast p.dest)
    then some []
    else (do
      found ← find_tag p tag_relay_session_id
      elim found [
        | some _ ↦ some []
        | none ↦ elim (add_tag p (relay_tag i p.source)) [
          | none ↦ some []
          | some p' ↦ some (broadcast_on i p' (size + my_relay_tag_len + tag_hdr_size) 0 ifaces)
        ]
      ])

-- Where a relay tag points: its location, the tag, and the interface.
pub record Target : Type 0 where
  pub loc : ℕ
  pub tag : Tag
  pub index : ℕ
  pub iface : Interface

-- The checks of a tag that PADO, PADR and PADS share: its length, the index, what the interface is for,
-- and that it is another one.
unfoldable pub check_target : (Interface → Bool) → List Interface → ℕ → ℕ → Tag → Option Target
check_target serves ifaces i loc t =
    let j = int_of t.value in
    if not (length t.value == my_relay_tag_len) then none else elim (get_elem? ifaces j) [
      | none ↦ none
      | some f ↦
          if not (serves f)
          then none
          else if i == j
          then none
          else some (record { loc = loc; tag = t; index = j; iface = f })
    ]

unfoldable pub relay_target :
    (Interface → Bool) → List Interface → ℕ → Packet → Option (Option Target)
unfolding check_target
relay_target serves ifaces i p = do
  found ← find_tag p tag_relay_session_id
  elim found [ none ↦ some none | some (loc, t) ↦ some (check_target serves ifaces i loc t) ]

-- The tag for the opposite direction, and the new addresses.
unfoldable pub redirect : ℕ → Packet → Target → Packet
redirect i p t =
    let payload1 = memcpy p.payload (t.loc + tag_hdr_size) (int_bytes i) in
    record p {
      payload = memcpy payload1 (t.loc + tag_hdr_size + 4) p.source;
      dest = drop 4 t.tag.value;
      source = t.iface.mac;
    }

abbrev pub send_redirected : ℕ → Packet → ℕ → Option Target → List Sent
send_redirected i p size none = []
send_redirected i p size (some t) =
    record { sock = discovery_sock; interface = t.index; packet = redirect i p t; size = size } ∷ []

unfoldable pub relay_handle_pado : List Interface → ℕ → Interface → Packet → ℕ → Option (List Sent)
unfolding relay_target redirect broadcast
relay_handle_pado ifaces i iface p size =
    if not iface.ac_ok
    then some []
    else if broadcast p.source
    then some []
    else if not (mac_eq p.dest iface.mac)
    then some []
    else (do t ← relay_target (λ f. f.client_ok) ifaces i p; some (send_redirected i p size t))

unfoldable pub relay_handle_padr : List Interface → ℕ → Interface → Packet → ℕ → Option (List Sent)
unfolding relay_target redirect
relay_handle_padr ifaces i iface p size =
    if not iface.client_ok
    then some []
    else if not_unicast p.source
    then some []
    else if not (mac_eq p.dest iface.mac)
    then some []
    else (do t ← relay_target (λ f. f.ac_ok) ifaces i p; some (send_redirected i p size t))
