-- ===== src/Pppoe/Relay/Handlers.antt =====
-- rp-pppoe/src/relay.c: PADT and session packets, the dispatch of discovery packets by their code, and the
-- cleaning of idle sessions. `none` is a fault.
pub mod Forward
pub mod Created
use zy_agf.Prelude.{
  ℕ, zero, suc, ◌+◌, ◌-◌, ◌*◌, ◌/◌, ◌%◌, ◌^◌, bit_and, Bool, true, false, not, ◌&&◌, ◌||◌, Option,
  none, some, List, [], ◌∷◌, ◌++◌, ◌==◌, ltb, leb, if◌then◌else◌, get_or, get_elem?, length, drop,
  ◌>>=◌,
}
use zy_agf.Pppoe.Packet.{
  Packet, pppoe_ver, pppoe_type, hdr_size, tag_hdr_size, tag_host_uniq, tag_relay_session_id,
  tag_generic_error, code_padi, code_pado, code_padr, code_pads, code_padt, code_sess,
}
use zy_agf.Pppoe.Tags.{Tag, find_tag}
use zy_agf.Pppoe.Bytes.{memcpy, remove_bytes, add_tag}
use zy_agf.Pppoe.Relay.{
  Session, SessionHash, Relay, update, mac_eq, find_session, create_session, free_session,
}
use zy_agf.Pppoe.Relay.Ports.{
  Interface, Socket, Sent, not_unicast, broadcast, int_bytes, int_of, my_relay_tag_len, relay_tag,
  eth_pppoe_discovery, add_tag_if, relay_send_error, to_peer, checked_size, discovery_sock,
  session_sock,
}
use zy_agf.Pppoe.Relay.Offers.{
  broadcast_on, relay_handle_padi, Target, check_target, relay_target, redirect, send_redirected,
  relay_handle_pado, relay_handle_padr,
}
use zy_agf.Pppoe.Relay.Pads.{
  deliver_pads, refuse_pads, pads_session, accept_pads, relay_handle_pads,
}

unfoldable pub relay_handle_padt :
    List Interface → Interface → Packet → ℕ → Relay → Option (List Sent × Relay)
unfolding to_peer
relay_handle_padt ifaces iface p size r =
    if not (mac_eq p.dest iface.mac)
    then some ([], r)
    else elim (find_session r p.source p.session) [
      | none ↦ some ([], r)
      | some h ↦ (do
        let peer = (r.hashes h).peer
        sent ← to_peer ifaces r peer p size
        some (sent, free_session ((r.hashes peer).ses) r))
    ]

-- A frame that was received on the session socket.
unfoldable pub relay_got_session_packet :
    List Interface → Interface → Packet → ℕ → Relay → Option (List Sent × Relay)
unfolding checked_size to_peer
relay_got_session_packet ifaces iface p size r =
    if not (p.code == code_sess)
    then some ([], r)
    else if not (mac_eq p.dest iface.mac)
    then some ([], r)
    else elim (checked_size p size) [
      | none ↦ some ([], r)
      | some size' ↦ elim (find_session r p.source p.session) [
        | none ↦ some ([], r)
        | some h ↦ (do
          let sh = r.hashes h
          let r' = record r {
            sessions = update r.sessions sh.ses (record (r.sessions sh.ses) { epoch = r.epoch });
          }
          sent ← to_peer ifaces r' sh.peer p size'
          some (sent, r'))
      ]
    ]

-- A handler that leaves the table alone.
abbrev pub with_table : Relay → Option (List Sent) → Option (List Sent × Relay)
with_table r none = none
with_table r (some sent) = some (sent, r)

unfoldable pub dispatch :
    List ℕ
    → List ℕ
    → List Interface
    → ℕ
    → Interface
    → Packet
    → ℕ
    → Relay
    → Option (List Sent × Relay)
dispatch stack err_msg ifaces i iface p size r =
    if p.code == code_padt
    then relay_handle_padt ifaces iface p size r
    else if p.code == code_padi
    then with_table r (relay_handle_padi ifaces i iface p size)
    else if p.code == code_pado
    then with_table r (relay_handle_pado ifaces i iface p size)
    else if p.code == code_padr
    then with_table r (relay_handle_padr ifaces i iface p size)
    else if p.code == code_pads
    then relay_handle_pads stack err_msg ifaces i iface p size r
    else some ([], r)

unfoldable pub relay_got_discovery_packet :
    List ℕ
    → List ℕ
    → List Interface
    → ℕ
    → Interface
    → Packet
    → ℕ
    → Relay
    → Option (List Sent × Relay)
unfolding checked_size dispatch
relay_got_discovery_packet stack err_msg ifaces i iface p size r = elim (checked_size p size) [
  | none ↦ some ([], r)
  | some size' ↦ dispatch stack err_msg ifaces i iface p size' r
]

-- `cleanSessions` from a session of the active list on; the list is the one at the start, since each
-- `next` is read before its session is freed.
unfoldable pub clean_from :
    List ℕ → List ℕ → List Interface → ℕ → List ℕ → Relay → List Sent × Relay
unfolding relay_send_error
clean_from stack err_msg ifaces idle_timeout [] r = ([], r)
clean_from stack err_msg ifaces idle_timeout (cur ∷ rest) r =
    let ses = r.sessions cur in
    let idle = ltb idle_timeout ((r.epoch + 2 ^ 32 - ses.epoch) % 2 ^ 32) in
    let ac = r.hashes ses.ac_hash in
    let cli = r.hashes ses.client_hash in
    let sent =
      relay_send_error stack code_padt ac.ses_num ifaces ac.interface ac.peer_mac none err_msg
      ++ relay_send_error stack code_padt cli.ses_num ifaces cli.interface cli.peer_mac none
          err_msg in
    let later =
      clean_from stack err_msg ifaces idle_timeout rest (if idle then free_session cur r else r) in
    ((if idle then sent ++ later.0 else later.0), later.1)

unfoldable pub clean_sessions : List ℕ → List ℕ → List Interface → ℕ → Relay → List Sent × Relay
clean_sessions stack err_msg ifaces idle_timeout r =
    clean_from stack err_msg ifaces idle_timeout r.active_sessions r
