-- ===== src/Pppoe/Relay/Handlers/Created.antt =====
-- The session that a PADS creates carries session packets.
use zy_agf.Prelude.{
  Bool-cases, inl, inr, ℕ, ◌+◌, true, false, some, List, [], ◌∷◌, get_elem?, ◌≡◌, ◌≢◌, sym, ap,
  arith, ◌∙◌,
}
use zy_agf.Pppoe.Packet.{Packet, hdr_size}
use zy_agf.Pppoe.Relay.{SessionHash, Relay, mac_eq, is_entry, find_session, link_session, add_hash}
use zy_agf.Pppoe.Relay.Table.{
  Unchained, ac_entry, cli_entry, mac_eq_refl, mac_eq-eq, find_session-link_session,
}
use zy_agf.Pppoe.Relay.Ports.{Interface, session_sock}
use zy_agf.Pppoe.Relay.Handlers.{relay_got_session_packet}
use zy_agf.Pppoe.Relay.Handlers.Forward.{
  IsSessionFrame, translated, touched, relay_got_session_packet-forwards,
}

is_entry-own :
    (mac : List ℕ) (n : ℕ) (sh : SessionHash)
    → sh.peer_mac ≡ mac
    → sh.ses_num ≡ n
    → is_entry mac n sh ≡ true
is_entry-own mac n sh m e = rw (m, e, mac_eq_refl mac) (ground arith)

-- The two entries that `createSession` wrote.
module _ (ac cli : ℕ) (ac_mac cli_mac : List ℕ) (ac_ses : ℕ) (r : Relay) (sess : ℕ)
    (free_sessions : List ℕ) (ah ch : ℕ) (free_hashes : List ℕ) where
  client_entry_lem :
      (link_session ac cli ac_mac cli_mac ac_ses r sess free_sessions ah ch free_hashes).hashes ch
      ≡ cli_entry r cli cli_mac sess ah
  unfolding link_session add_hash
  client_entry_lem = ground arith

  ac_entry_lem :
      ah ≢ ch
      → (link_session ac cli ac_mac cli_mac ac_ses r sess free_sessions ah ch free_hashes).hashes ah
        ≡ ac_entry ac ac_mac ac_ses sess ch
  unfolding link_session add_hash
  ac_entry_lem ne = ground arith

-- After a session is created with two entries that are distinct and in no chain, a good frame from the
-- client with the number that the relay assigned goes, without its padding, to the access concentrator:
-- on its interface, from that interface's address, with the access concentrator's number.
pub relay_got_session_packet-link_session :
    (ac cli : ℕ) (ac_mac cli_mac : List ℕ) (ac_ses : ℕ) (r : Relay) (sess : ℕ)
    (free_sessions : List ℕ) (ah ch : ℕ) (free_hashes : List ℕ) (ifaces : List Interface)
    (iface g : Interface) (p : Packet) (size : ℕ)
    → Unchained r ah
    → Unchained r ch
    → ah ≢ ch
    → IsSessionFrame iface p size
    → p.source ≡ cli_mac
    → p.session ≡ (r.sessions sess).ses_num
    → get_elem? ifaces ac ≡ some g
    → let r' = link_session ac cli ac_mac cli_mac ac_ses r sess free_sessions ah ch free_hashes in
      relay_got_session_packet ifaces iface p size r'
      ≡ some (
        record {
          sock = session_sock;
          interface = ac;
          packet = record p { session = ac_ses; source = g.mac; dest = ac_mac };
          size = p.length + hdr_size;
        }
            ∷ [],
        touched r' ch,
      )
relay_got_session_packet-link_session ac cli ac_mac cli_mac ac_ses r sess free_sessions ah ch
      free_hashes ifaces iface g p size ua uc ne v src num at =
    let r' = link_session ac cli ac_mac cli_mac ac_ses r sess free_sessions ah ch free_hashes in
    let ce = client_entry_lem ac cli ac_mac cli_mac ac_ses r sess free_sessions ah ch free_hashes in
    let ae = ac_entry_lem ac cli ac_mac cli_mac ac_ses r sess free_sessions ah ch free_hashes ne in
    let own =
      is_entry-own p.source p.session (cli_entry r cli cli_mac sess ah) (sym src) (sym num) in
    let found : find_session r' p.source p.session ≡ some ch =
      find_session-link_session ac cli ac_mac cli_mac ac_ses r sess free_sessions ah ch free_hashes
        p.source p.session ua uc ne
      ∙ rw own in
    let peer : r'.hashes (r'.hashes ch).peer ≡ ac_entry ac ac_mac ac_ses sess ch =
      ap (λ (e : SessionHash). r'.hashes e.peer) ce ∙ ae in
    let step =
      relay_got_session_packet-forwards ifaces iface g p size ch r' v found
        (ap (λ (e : SessionHash). get_elem? ifaces e.interface) peer ∙ at) in
    step
    ∙ ap
        (λ (e : SessionHash). some (
          record {
            sock = session_sock;
            interface = e.interface;
            packet = translated e g.mac p;
            size = p.length + hdr_size;
          }
              ∷ [],
          touched r' ch,
        ))
        peer

other_mac-is_entry :
    (mac : List ℕ) (n : ℕ) (sh : SessionHash) → mac ≢ sh.peer_mac → is_entry mac n sh ≡ false
other_mac-is_entry mac n sh ne = elim (Bool-cases (mac_eq mac sh.peer_mac)) [
  | inl same ↦ absurd (ne (mac_eq-eq mac sh.peer_mac same))
  | inr other ↦ rw other
]

-- After a session is created with two entries that are distinct and in no chain, for two ends with
-- different addresses, a good frame from the access concentrator with its number goes, without its
-- padding, to the client: on the client's interface, from that interface's address, with the number that
-- the relay assigned.
pub relay_got_session_packet-link_session_back :
    (ac cli : ℕ) (ac_mac cli_mac : List ℕ) (ac_ses : ℕ) (r : Relay) (sess : ℕ)
    (free_sessions : List ℕ) (ah ch : ℕ) (free_hashes : List ℕ) (ifaces : List Interface)
    (iface g : Interface) (p : Packet) (size : ℕ)
    → Unchained r ah
    → Unchained r ch
    → ah ≢ ch
    → ac_mac ≢ cli_mac
    → IsSessionFrame iface p size
    → p.source ≡ ac_mac
    → p.session ≡ ac_ses
    → get_elem? ifaces cli ≡ some g
    → let r' = link_session ac cli ac_mac cli_mac ac_ses r sess free_sessions ah ch free_hashes in
      relay_got_session_packet ifaces iface p size r'
      ≡ some (
        record {
          sock = session_sock;
          interface = cli;
          packet = record p { session = (r.sessions sess).ses_num; source = g.mac; dest = cli_mac };
          size = p.length + hdr_size;
        }
            ∷ [],
        touched r' ah,
      )
relay_got_session_packet-link_session_back ac cli ac_mac cli_mac ac_ses r sess free_sessions ah ch
      free_hashes ifaces iface g p size ua uc ne macs v src num at =
    let r' = link_session ac cli ac_mac cli_mac ac_ses r sess free_sessions ah ch free_hashes in
    let ce = client_entry_lem ac cli ac_mac cli_mac ac_ses r sess free_sessions ah ch free_hashes in
    let ae = ac_entry_lem ac cli ac_mac cli_mac ac_ses r sess free_sessions ah ch free_hashes ne in
    let foreign =
      other_mac-is_entry p.source p.session (cli_entry r cli cli_mac sess ah)
        (λ e. macs (sym src ∙ e)) in
    let own =
      is_entry-own p.source p.session (ac_entry ac ac_mac ac_ses sess ch) (sym src) (sym num) in
    let found : find_session r' p.source p.session ≡ some ah =
      find_session-link_session ac cli ac_mac cli_mac ac_ses r sess free_sessions ah ch free_hashes
        p.source p.session ua uc ne
      ∙ rw (foreign, own) in
    let peer : r'.hashes (r'.hashes ah).peer ≡ cli_entry r cli cli_mac sess ah =
      ap (λ (e : SessionHash). r'.hashes e.peer) ae ∙ ce in
    let step =
      relay_got_session_packet-forwards ifaces iface g p size ah r' v found
        (ap (λ (e : SessionHash). get_elem? ifaces e.interface) peer ∙ at) in
    step
    ∙ ap
        (λ (e : SessionHash). some (
          record {
            sock = session_sock;
            interface = e.interface;
            packet = translated e g.mac p;
            size = p.length + hdr_size;
          }
              ∷ [],
          touched r' ah,
        ))
        peer
