-- ===== src/Pppoe/Discovery/Granted.antt =====
-- rp-pppoe/src/discovery.c: which PADS `waitForPADS` accepts.
use zy_agf.Prelude.{ℕ, ◌+◌, ◌≤◌, some, List, ◌∷◌, ◌≡◌}
use zy_agf.Pppoe.Packet.{Packet, hdr_size, code_pads}
use zy_agf.Pppoe.Discovery.{in_session, Conn, back, Seen, more, ended}
use zy_agf.Pppoe.Packet.{tag_host_uniq}
use zy_agf.Pppoe.Discovery.{Arrival, arrived}
use zy_agf.Pppoe.Discovery.Mine.{HasTag, NoError}

-- What no PADS changes before one is accepted.
pub record Kept (c d : Conn) : Type 0 where
  pub my_eth : d.my_eth ≡ c.my_eth
  pub host_uniq : d.host_uniq ≡ c.host_uniq
  pub peer_eth : d.peer_eth ≡ c.peer_eth
  pub session : d.session ≡ c.session
  pub state : d.discovery_state ≡ c.discovery_state

-- An accepted PADS: its length field fits the bytes received, it comes from the concentrator and is
-- directed to this client, its code is that of a PADS; where the client has a Host-Uniq, its tags hold
-- it; and where its tags are read at all, none of them is an error.
pub record Accepted (c : Conn) (p : Packet) (len : ℕ) (d : Conn) : Type 0 where
  pub fits : p.length + hdr_size ≤ len
  pub from_peer : p.source ≡ c.peer_eth
  pub to_us : p.dest ≡ c.my_eth
  pub for_us : (name : List ℕ) → c.host_uniq ≡ some name → HasTag p tag_host_uniq name
  pub is_pads : p.code ≡ code_pads
  pub no_error : NoError p
  pub session : d.session ≡ p.session
  pub state : d.discovery_state ≡ in_session

-- How the wait ends: the time is up and the session and the state are as before, or a packet was
-- accepted, the one that lay in the variable after something arrived.
pub data Granted (c : Conn) : Packet → List Arrival → Conn → Type 0 where
  timed_out :
      {packet : Packet} {arrivals : List Arrival} {d : Conn}
      → Kept c d
      → Granted c packet arrivals d
  here :
      {packet : Packet} {a : Arrival} {arrivals : List Arrival} {d : Conn}
      → Accepted c (arrived packet a).0 (arrived packet a).1 d
      → Granted c packet (a ∷ arrivals) d
  later :
      {packet : Packet} {a : Arrival} {arrivals : List Arrival} {d : Conn}
      → Granted c (arrived packet a).0 arrivals d
      → Granted c packet (a ∷ arrivals) d

-- What one packet leads to.
data Looked (c : Conn) (p : Packet) (len : ℕ) : Seen → Type 0 where
  kept : {d : Conn} → Kept c d → Looked c p len (more d)
  accepted : {d : Conn} → Accepted c p len d → Looked c p len (ended (back d))
