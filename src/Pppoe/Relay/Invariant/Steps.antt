-- ===== src/Pppoe/Relay/Invariant/Steps.antt =====
-- Each handler of the relay, on a well-formed table: it does not fault, and the table stays well formed.
use zy_agf.Prelude.{
  ℕ, zero, suc, ◌<◌, true, Option, none, some, List, [], ◌∷◌, ◌==◌, length, get_elem?, ◌≡◌, refl,
  arith, Bool-cases, inl, inr, ◌>>=◌, Option-cases,
}
use zy_agf.Pppoe.Packet.{Packet, code_sess}
use zy_agf.Pppoe.Relay.{Relay, update, mac_eq, find_session, free_session}
use zy_agf.Pppoe.Relay.Ports.{Interface, Sent, session_sock, checked_size, to_peer}
use zy_agf.Pppoe.Relay.Handlers.{relay_handle_padt, relay_got_session_packet}
use zy_agf.Pppoe.Relay.Invariant.{live, IsValid}
use zy_agf.Pppoe.Relay.Invariant.Free.{free_session-IsValid}
use zy_agf.Pppoe.Relay.Invariant.Lookup.{find_session-live}
use zy_agf.Pppoe.Relay.Invariant.Reach.{live-Peers, retimed-IsValid}

-- The handler returns, and leaves a well-formed table.
pub record Keeps (n : ℕ) (o : Option (List Sent × Relay)) : Type 0 where
  pub sent : List Sent
  pub after : Relay
  pub returns : o ≡ some (sent, after)
  pub valid : IsValid n after

pub same-Keeps : (n : ℕ) (r : Relay) (sent : List Sent) → IsValid n r → Keeps n (some (sent, r))
same-Keeps n r sent v = record { sent = sent; after = r; returns = refl; valid = v }

pub get_elem?_total :
    {A : Type 0} (xs : List A) (i : ℕ) → i < length xs → (x : A) × (get_elem? xs i ≡ some x)
get_elem?_total [] i h = absurd (omega arith)
get_elem?_total (x ∷ xs) zero h = (x, refl)
get_elem?_total (x ∷ xs) (suc i) h = get_elem?_total xs i (omega arith)

to_peer_total :
    (ifaces : List Interface) (r : Relay) (h : ℕ) (p : Packet) (size : ℕ)
    → (r.hashes h).interface < length ifaces
    → (sent : List Sent) × (to_peer ifaces r h p size ≡ some sent)
unfolding to_peer
to_peer_total ifaces r h p size i =
    let (f, e) = get_elem?_total ifaces (r.hashes h).interface i in
    (
      record {
        sock = session_sock;
        interface = (r.hashes h).interface;
        packet = record p {
          session = (r.hashes h).ses_num;
          source = f.mac;
          dest = (r.hashes h).peer_mac;
        };
        size = size;
      }
          ∷ [],
      rw e,
    )

-- The step behind a session's lookup, for a PADT.
padt_found :
    (ifaces : List Interface) (p : Packet) (size : ℕ) (r : Relay) (h : ℕ)
    → IsValid (length ifaces) r
    → live r h ≡ true
    → Keeps (length ifaces) (
        to_peer ifaces r (r.hashes h).peer p size >>= λ sent.
        some (sent, free_session ((r.hashes (r.hashes h).peer).ses) r))
padt_found ifaces p size r h v l =
    let q = live-Peers (length ifaces) r h v l in
    let (sent, e) = to_peer_total ifaces r (r.hashes h).peer p size q.peer_interface in
    record {
      sent = sent;
      after = free_session ((r.hashes (r.hashes h).peer).ses) r;
      returns = rw e;
      valid =
          free_session-IsValid (length ifaces) r ((r.hashes (r.hashes h).peer).ses) v
            (rw q.peer_ses q.active);
    }

-- A PADT of any kind.
pub relay_handle_padt-IsValid :
    (ifaces : List Interface) (iface : Interface) (p : Packet) (size : ℕ) (r : Relay)
    → IsValid (length ifaces) r
    → Keeps (length ifaces) (relay_handle_padt ifaces iface p size r)
unfolding relay_handle_padt
relay_handle_padt-IsValid ifaces iface p size r v = elim (Bool-cases (mac_eq p.dest iface.mac)) [
  | inr e ↦ rw e (same-Keeps (length ifaces) r [] v)
  | inl e ↦ rw e (elim (Option-cases (find_session r p.source p.session)) [
    | inl f ↦ rw f (same-Keeps (length ifaces) r [] v)
    | inr (h, f) ↦
        let l = find_session-live (length ifaces) r p.source p.session h v f in
        rw f (unfold to_peer in padt_found ifaces p size r h v l)
  ])
]

session_found :
    (ifaces : List Interface) (p : Packet) (size : ℕ) (r : Relay) (h : ℕ)
    → IsValid (length ifaces) r
    → live r h ≡ true
    → let r' = record r {
      sessions =
          update r.sessions
            (r.hashes h).ses
            (record (r.sessions (r.hashes h).ses) { epoch = r.epoch });
    } in
      Keeps (length ifaces) (to_peer ifaces r' (r.hashes h).peer p size >>= λ sent. some (sent, r'))
session_found ifaces p size r h v l =
    let s = (r.hashes h).ses in
    let sessions' = update r.sessions s (record (r.sessions s) { epoch = r.epoch }) in
    let r' = record r { sessions = sessions' } in
    let q = live-Peers (length ifaces) r h v l in
    let (sent, e) = to_peer_total ifaces r' (r.hashes h).peer p size q.peer_interface in
    record {
      sent = sent;
      after = r';
      returns = rw e;
      valid =
          retimed-IsValid (length ifaces) r sessions' r.epoch (λ x. ground arith)
            (λ x. ground arith) v;
    }

-- The handler's part behind the check of the length.
session_sized :
    (ifaces : List Interface) (p : Packet) (r : Relay) (o : Option ℕ)
    → IsValid (length ifaces) r
    → Keeps (length ifaces) (elim o [
      | none ↦ some ([], r)
      | some size' ↦ elim (find_session r p.source p.session) [
        | none ↦ some ([], r)
        | some h ↦
            let r' = record r {
              sessions =
                  update r.sessions
                    (r.hashes h).ses
                    (record (r.sessions (r.hashes h).ses) { epoch = r.epoch });
            } in
            to_peer ifaces r' (r.hashes h).peer p size' >>= λ sent. some (sent, r')
      ]
    ])
session_sized ifaces p r none v = same-Keeps (length ifaces) r [] v
session_sized ifaces p r (some size') v = elim (Option-cases (find_session r p.source p.session)) [
  | inl f ↦ rw f (same-Keeps (length ifaces) r [] v)
  | inr (h, f) ↦
      let l = find_session-live (length ifaces) r p.source p.session h v f in
      rw f (session_found ifaces p size' r h v l)
]

-- A frame of any kind on the session socket.
pub relay_got_session_packet-IsValid :
    (ifaces : List Interface) (iface : Interface) (p : Packet) (size : ℕ) (r : Relay)
    → IsValid (length ifaces) r
    → Keeps (length ifaces) (relay_got_session_packet ifaces iface p size r)
unfolding relay_got_session_packet
relay_got_session_packet-IsValid ifaces iface p size r v =
    let same = same-Keeps (length ifaces) r [] v in
    elim (Bool-cases (p.code == code_sess)) [
      | inr e ↦ rw e same
      | inl e ↦ elim (Bool-cases (mac_eq p.dest iface.mac)) [
        | inr m ↦ rw (e, m) same
        | inl m ↦
            rw (e, m)
              (unfold checked_size to_peer in session_sized ifaces p r (checked_size p size) v)
      ]
    ]
