-- ===== src/Pppoe/Relay/Invariant/Run.antt =====
-- All that can happen to the relay, as steps, and what holds of every table that it can reach.
use zy_agf.Prelude.{
  ℕ, ◌+◌, ◌^◌, ◌%◌, ◌<◌, zero, suc, Option, some, List, [], ◌∷◌, get_elem?, length, ◌≡◌, refl, sym,
  subst, ◌∙◌, arith,
}
use zy_agf.Pppoe.Packet.{Packet, eth_jumbo_len}
use zy_agf.Pppoe.Relay.{Relay, init_relay}
use zy_agf.Pppoe.Relay.Ports.{Interface, Sent}
use zy_agf.Pppoe.Relay.Handlers.{
  relay_got_discovery_packet, relay_got_session_packet, clean_sessions,
}
use zy_agf.Pppoe.Relay.Invariant.{IsValid}
use zy_agf.Pppoe.Relay.Invariant.Reach.{init_relay-IsValid, retimed-IsValid}
use zy_agf.Pppoe.Relay.Invariant.Steps.{Keeps, relay_got_session_packet-IsValid}
use zy_agf.Pppoe.Relay.Invariant.Always.{relay_got_discovery_packet-IsValid}
use zy_agf.Pppoe.Relay.Invariant.Clean.{clean_sessions-IsValid}

-- The rounds of `relayLoop`, and the clock of the alarm handler: a frame on a socket of an interface, with what
-- the stack held and the text of the error; the cleaning; one second more.
pub data Step (ifaces : List Interface) : Relay → Relay → Type 0 where
  discovery :
      (stack err_msg : List ℕ) (i : ℕ) (iface : Interface) (p : Packet) (size : ℕ)
      (sent : List Sent) {r r' : Relay}
      → length p.payload ≡ eth_jumbo_len
      → get_elem? ifaces i ≡ some iface
      → relay_got_discovery_packet stack err_msg ifaces i iface p size r ≡ some (sent, r')
      → Step ifaces r r'
  session :
      (i : ℕ) (iface : Interface) (p : Packet) (size : ℕ) (sent : List Sent) {r r' : Relay}
      → get_elem? ifaces i ≡ some iface
      → relay_got_session_packet ifaces iface p size r ≡ some (sent, r')
      → Step ifaces r r'
  clean :
      (stack err_msg : List ℕ) (idle_timeout : ℕ) {r : Relay}
      → Step ifaces r (clean_sessions stack err_msg ifaces idle_timeout r).1
  tick : {r : Relay} → Step ifaces r (record r { epoch = (r.epoch + 1) % 2 ^ 32 })

pub data Reach (ifaces : List Interface) (nsess : ℕ) : Relay → Type 0 where
  start : Reach ifaces nsess (init_relay nsess)
  next : {r r' : Relay} → Reach ifaces nsess r → Step ifaces r r' → Reach ifaces nsess r'

get_elem?_bound :
    {A : Type 0} {x : A} (xs : List A) (i : ℕ) → get_elem? xs i ≡ some x → i < length xs
get_elem?_bound [] i e = cc
get_elem?_bound (y ∷ xs) zero e = omega arith
get_elem?_bound (y ∷ xs) (suc i) e = let h = get_elem?_bound xs i e in omega arith

-- The table after a handler that keeps tables well formed.
after-Keeps :
    {n : ℕ} {o : Option (List Sent × Relay)} {sent : List Sent} {r' : Relay}
    → Keeps n o
    → o ≡ some (sent, r')
    → IsValid n r'
after-Keeps {n} k e = subst (λ r. IsValid n r) (same (sym k.returns ∙ e)) k.valid
  where
    same : {a b : List Sent × Relay} → some a ≡ some b → a.1 ≡ b.1
    same q = cc

Step-IsValid :
    {ifaces : List Interface} {r r' : Relay}
    → IsValid (length ifaces) r
    → Step ifaces r r'
    → IsValid (length ifaces) r'
Step-IsValid {ifaces} v (discovery stack err_msg i iface p size sent {r} whole a e) =
    after-Keeps
      (relay_got_discovery_packet-IsValid stack err_msg ifaces i iface p size r whole v
        (get_elem?_bound ifaces i a))
      e
Step-IsValid {ifaces} v (session i iface p size sent {r} a e) =
    after-Keeps (relay_got_session_packet-IsValid ifaces iface p size r v) e
Step-IsValid {ifaces} v (clean stack err_msg idle_timeout {r}) =
    clean_sessions-IsValid (length ifaces) stack err_msg ifaces idle_timeout r v
Step-IsValid {ifaces} v (tick {r}) =
    retimed-IsValid (length ifaces) r r.sessions ((r.epoch + 1) % 2 ^ 32) (λ s. refl) (λ s. refl) v

-- Every table that the relay can reach from the start, by frames of any contents and any length on any of its
-- sockets, cleanings and ticks of the clock in any order, is well formed.
pub Reach-IsValid :
    (ifaces : List Interface) (nsess : ℕ) (r : Relay)
    → Reach ifaces nsess r
    → IsValid (length ifaces) r
Reach-IsValid ifaces nsess _ start = init_relay-IsValid (length ifaces) nsess
Reach-IsValid ifaces nsess _ (next {r} h s) = Step-IsValid (Reach-IsValid ifaces nsess r h) s
