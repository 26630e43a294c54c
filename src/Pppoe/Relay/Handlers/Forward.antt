-- ===== src/Pppoe/Relay/Handlers/Forward.antt =====
-- Session packets: the relay is a translation between two pairs of address and session number, and the
-- two directions undo each other.
use zy_agf.Prelude.{
  ℕ, ◌+◌, ◌≤◌, true, some, List, [], ◌∷◌, get_elem?, ◌≡◌, subst, sym, ap, some_inj, ◌∙◌, arith,
  Bool-cases, inl, inr,
}
use zy_agf.Pppoe.Packet.{Packet, hdr_size, pppoe_ver, pppoe_type, code_sess}
use zy_agf.Pppoe.Relay.{SessionHash, Relay, update, find_session, find_in, is_entry, bucket_of}
use zy_agf.Pppoe.Relay.Table.{mac_eq_refl, mac_eq-eq}
use zy_agf.Pppoe.Relay.Ports.{Interface, Sent, session_sock, checked_size}
use zy_agf.Pppoe.Relay.Handlers.{relay_got_session_packet}

-- A frame for the session socket of an interface: its destination, version, type, code, and a length
-- that fits the bytes received.
pub record IsSessionFrame (iface : Interface) (p : Packet) (size : ℕ) : Type 0 where
  pub version : pppoe_ver p.vertype ≡ 1
  pub kind : pppoe_type p.vertype ≡ 1
  pub sess : p.code ≡ code_sess
  pub ours : p.dest ≡ iface.mac
  pub fits : p.length + hdr_size ≤ size

-- The packet that goes to the peer `k` of an entry, on an interface with address `mac`.
abbrev pub translated : SessionHash → List ℕ → Packet → Packet
translated k mac p = record p { session = k.ses_num; source = mac; dest = k.peer_mac }

-- The table after a packet of the session of an entry: its epoch is now.
abbrev pub touched : Relay → ℕ → Relay
touched r h =
    let s = (r.hashes h).ses in
    record r { sessions = update r.sessions s (record (r.sessions s) { epoch = r.epoch }) }

checked_size-fits :
    (iface : Interface) (p : Packet) (size : ℕ)
    → IsSessionFrame iface p size
    → checked_size p size ≡ some (p.length + hdr_size)
unfolding checked_size
checked_size-fits iface p size v = ground arith

-- A good frame of a session that is in the table, whose other end is on an interface that exists, goes
-- without its padding to the other end: on that interface, from its address, to the other end's address
-- and session number. Nothing else is sent, and of the table only the session's epoch changes.
pub relay_got_session_packet-forwards :
    (ifaces : List Interface) (iface f : Interface) (p : Packet) (size h : ℕ) (r : Relay)
    → IsSessionFrame iface p size
    → find_session r p.source p.session ≡ some h
    → get_elem? ifaces (r.hashes (r.hashes h).peer).interface ≡ some f
    → let k = r.hashes (r.hashes h).peer in
      relay_got_session_packet ifaces iface p size r
      ≡ some (
        record {
          sock = session_sock;
          interface = k.interface;
          packet = translated k f.mac p;
          size = p.length + hdr_size;
        }
            ∷ [],
        touched r h,
      )
unfolding relay_got_session_packet
relay_got_session_packet-forwards ifaces iface f p size h r v found there =
    ground (arith, mac_eq_refl iface.mac)

-- What a lookup finds is the entry for that address and number.
find_in-is_entry :
    (hashes : ℕ → SessionHash) (mac : List ℕ) (n h : ℕ) (chain : List ℕ)
    → find_in hashes mac n chain ≡ some h
    → (mac ≡ (hashes h).peer_mac) × (n ≡ (hashes h).ses_num)
unfolding find_in
find_in-is_entry hashes mac n h [] e = cc
find_in-is_entry hashes mac n h (x ∷ chain) e = elim (Bool-cases (is_entry mac n (hashes x))) [
  | inl here ↦
      let same : some x ≡ some h = rw here at e in
      let at_h : is_entry mac n (hashes h) ≡ true =
        subst (λ y. is_entry mac n (hashes y) ≡ true) (cc) here in
      (mac_eq-eq mac (hashes h).peer_mac (ground arith), ground arith)
  | inr later ↦
      let rest : find_in hashes mac n chain ≡ some h = rw later at e in
      find_in-is_entry hashes mac n h chain rest
]

pub find_session-is_entry :
    (r : Relay) (mac : List ℕ) (n h : ℕ)
    → find_session r mac n ≡ some h
    → (mac ≡ (r.hashes h).peer_mac) × (n ≡ (r.hashes h).ses_num)
unfolding find_session
find_session-is_entry r mac n h e =
    find_in-is_entry r.hashes mac n h (r.buckets (bucket_of mac n)) e

-- Where the relay sends one packet `out` for a good frame `p` of entry `h`, whose peer is the entry `k`:
-- if the two are peers of each other, `k` is found by its own address and number, and their interfaces
-- exist, then a good frame `q` on the interface of `out`, from the address that `out` went to and with the
-- session number of `out`, goes back to the sender of `p`, on the interface of `h`, with the session
-- number that `p` had.
pub relay_got_session_packet-reply :
    (ifaces : List Interface) (iface f g : Interface) (p q : Packet) (size size' h k : ℕ)
    (r r' : Relay) (out : Sent)
    → IsSessionFrame iface p size
    → find_session r p.source p.session ≡ some h
    → (r.hashes h).peer ≡ k
    → (r.hashes k).peer ≡ h
    → find_session r (r.hashes k).peer_mac (r.hashes k).ses_num ≡ some k
    → get_elem? ifaces (r.hashes k).interface ≡ some f
    → get_elem? ifaces (r.hashes h).interface ≡ some g
    → relay_got_session_packet ifaces iface p size r ≡ some (out ∷ [], r')
    → IsSessionFrame f q size'
    → q.source ≡ out.packet.dest
    → q.session ≡ out.packet.session
    → (out.interface ≡ (r.hashes k).interface)
      × (relay_got_session_packet ifaces f q size' r'
          ≡ some (
            record {
              sock = session_sock;
              interface = (r.hashes h).interface;
              packet = record q { session = p.session; source = g.mac; dest = p.source };
              size = q.length + hdr_size;
            }
                ∷ [],
            touched r' k,
          ))
relay_got_session_packet-reply ifaces iface f g p q size size' h k r r' out v found hk kh back atk
      ath ran w qs qn =
    let entry = find_session-is_entry r p.source p.session h found in
    let forwarded =
      relay_got_session_packet-forwards ifaces iface f p size h r v found (rw hk atk) in
    let same = some_inj (sym forwarded ∙ ran) in
    let at_k : out.interface ≡ (r.hashes k).interface =
      sym (ap (λ x. first_of x.0 (λ s. s.interface)) same) ∙ ap (λ i. (r.hashes i).interface) hk in
    let to : out.packet.dest ≡ (r.hashes k).peer_mac =
      sym (ap (λ x. macs_of x.0) same) ∙ ap (λ i. (r.hashes i).peer_mac) hk in
    let number : out.packet.session ≡ (r.hashes k).ses_num =
      sym (ap (λ x. first_of x.0 (λ s. s.packet.session)) same)
      ∙ ap (λ i. (r.hashes i).ses_num) hk in
    let table : touched r h ≡ r' = ap (λ x. x.1) same in
    let refound : find_session (touched r h) q.source q.session ≡ some k =
      rw (qs, qn, to, number) (unfold find_session in back) in
    let step =
      relay_got_session_packet-forwards ifaces f g q size' k (touched r h) w refound (rw kh ath) in
    (
      at_k,
      subst
          (λ t.
            relay_got_session_packet ifaces f q size' t
            ≡ some (
              record {
                sock = session_sock;
                interface = (r.hashes h).interface;
                packet = record q { session = p.session; source = g.mac; dest = p.source };
                size = q.length + hdr_size;
              }
                  ∷ [],
              touched t k,
            ))
          table (step ∙ rw (kh, entry.0, entry.1)),
    )
  where
    first_of : List Sent → (Sent → ℕ) → ℕ
    first_of [] field = 0
    first_of (s ∷ rest) field = field s

    macs_of : List Sent → List ℕ
    macs_of [] = []
    macs_of (s ∷ rest) = s.packet.dest
