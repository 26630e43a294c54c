-- ===== src/Pppoe/Relay/Pads.antt =====
-- rp-pppoe/src/relay.c: the handler of PADS, which creates sessions.
use zy_agf.Prelude.{
  ℕ, ◌+◌, ◌-◌, not, Option, none, some, List, [], ◌∷◌, ◌++◌, ◌==◌, if◌then◌else◌, drop, ◌>>=◌,
}
use zy_agf.Pppoe.Packet.{Packet, tag_hdr_size, tag_host_uniq, code_pads, code_padt}
use zy_agf.Pppoe.Tags.{Tag, find_tag}
use zy_agf.Pppoe.Bytes.{remove_bytes}
use zy_agf.Pppoe.Relay.{Relay, mac_eq, find_session, create_session}
use zy_agf.Pppoe.Relay.Ports.{
  Interface, Sent, not_unicast, my_relay_tag_len, relay_send_error, discovery_sock,
}
use zy_agf.Pppoe.Relay.Offers.{Target, relay_target}

-- The end of `relayHandlePADS`: the packet goes to the client without the relay's tag.
unfoldable pub deliver_pads : Packet → ℕ → Target → List Sent
deliver_pads p size t =
    let len = my_relay_tag_len + tag_hdr_size in
    let p1 : Packet = elim (remove_bytes p t.loc len) [ none ↦ p | some p' ↦ p' ] in
    record {
      sock = discovery_sock;
      interface = t.index;
      packet = record p1 { dest = drop 4 t.tag.value; source = t.iface.mac };
      size = size - len;
    }
    ∷ []

-- The error packets of a full table, to the client and to the access concentrator.
unfoldable pub refuse_pads :
    List ℕ → List ℕ → List Interface → ℕ → Packet → Target → Option (List Sent)
unfolding relay_send_error
refuse_pads stack err_msg ifaces i p t = do
  found ← find_tag p tag_host_uniq
  let hu : Option Tag = elim found [ none ↦ none | some (l, u) ↦ some u ]
  some (
      relay_send_error stack code_pads 0 ifaces t.index (drop 4 t.tag.value) hu err_msg
      ++ relay_send_error stack code_padt p.session ifaces i p.source none err_msg)

-- The session of a PADS: the one that exists for its source and number, or a new one.
unfoldable pub pads_session : Relay → ℕ → Packet → Target → Option (Option ℕ × Relay)
pads_session r i p t = elim (find_session r p.source p.session) [
  | some h ↦ some (some ((r.hashes h).ses), r)
  | none ↦ create_session i t.index p.source (drop 4 t.tag.value) p.session r
]

unfoldable pub accept_pads :
    List ℕ → List ℕ → List Interface → ℕ → Packet → ℕ → Target → Relay → Option (List Sent × Relay)
unfolding pads_session refuse_pads deliver_pads
accept_pads stack err_msg ifaces i p size t r = do
  made ← pads_session r i p t
  elim made.0 [
    | none ↦ (do sent ← refuse_pads stack err_msg ifaces i p t; some (sent, made.1))
    | some s ↦
        some (deliver_pads (record p { session = (made.1.sessions s).ses_num }) size t, made.1)
  ]

unfoldable pub relay_handle_pads :
    List ℕ
    → List ℕ
    → List Interface
    → ℕ
    → Interface
    → Packet
    → ℕ
    → Relay
    → Option (List Sent × Relay)
unfolding relay_target accept_pads deliver_pads
relay_handle_pads stack err_msg ifaces i iface p size r =
    if not iface.ac_ok
    then some ([], r)
    else if not_unicast p.source
    then some ([], r)
    else if not (mac_eq p.dest iface.mac)
    then some ([], r)
    else (do
      target ← relay_target (λ f. f.client_ok) ifaces i p
      elim target [
        | none ↦ some ([], r)
        | some t ↦
            if p.session == 0
            then some (deliver_pads p size t, r)
            else accept_pads stack err_msg ifaces i p size t r
      ])
