-- ===== src/Pppoe/Relay/Offers/Padi.antt =====
-- What goes out for a PADI.
use zy_agf.Prelude.{
  All, ℕ, suc, ◌+◌, Bool, true, not, Option, none, some, List, [], ◌∷◌, ◌==◌, if◌then◌else◌,
  get_elem?, length, ◌≡◌, ◌≢◌, refl, sym, subst, arith, ◌>>=◌, Bool-cases, inl, inr,
}
use zy_agf.Pppoe.Packet.{Packet, tag_relay_session_id, tag_hdr_size, eth_jumbo_len}
use zy_agf.Pppoe.Tags.{Tag, find_tag}
use zy_agf.Pppoe.Tags.Parse.{Reads}
use zy_agf.Pppoe.Bytes.{add_tag}
use zy_agf.Pppoe.Bytes.Splice.{add_tag-Reads}
use zy_agf.Pppoe.Relay.Ports.{
  Interface, discovery_sock, Sent, not_unicast, broadcast, my_relay_tag_len, relay_tag,
}
use zy_agf.Pppoe.Relay.Offers.{broadcast_on, relay_handle_padi}
use zy_agf.Pppoe.Relay.Offers.Targets.{guard_inv}

-- What goes out for a PADI: with the relay's tag in front of its tags, to another interface, for access
-- concentrators.
pub record Relayed (ifaces : List Interface) (i : ℕ) (mac : List ℕ) (ts : List Tag) (ok : Bool)
    (s : Sent) : Type 0 where
  pub tagged : Reads s.packet (relay_tag i mac ∷ ts) ok
  pub other : i ≢ s.interface
  pub iface : Interface
  pub there : get_elem? ifaces s.interface ≡ some iface
  pub serving : iface.ac_ok ≡ true
  pub from : s.packet.source ≡ iface.mac

broadcast_on-All :
    (P : Sent → Type 0) (i : ℕ) (p : Packet) (size j : ℕ) (ifaces : List Interface)
    → ((k : ℕ) (f : Interface)
        → get_elem? ifaces k ≡ some f
        → f.ac_ok ≡ true
        → i ≢ j + k
        → P (record {
          sock = discovery_sock;
          interface = j + k;
          packet = record p { source = f.mac };
          size = size;
        }))
    → All P (broadcast_on i p size j ifaces)
unfolding broadcast_on
broadcast_on-All P i p size j [] h = tt
broadcast_on-All P i p size j (f ∷ rest) h =
    let later = broadcast_on-All P i p size (j + 1) rest (λ k g e a ne.
      subst
        (λ n. P (record {
          sock = discovery_sock;
          interface = n;
          packet = record p { source = g.mac };
          size = size;
        }))
        (plus_one k) (h (suc k) g e a (omega arith))) in
    elim (Bool-cases (i == j)) [
      | inl same ↦ rw same later
      | inr other ↦ elim (Bool-cases f.ac_ok) [
        | inl serves ↦
            rw (other, serves)
              (
                subst
                    (λ n. P (record {
                      sock = discovery_sock;
                      interface = n;
                      packet = record p { source = f.mac };
                      size = size;
                    }))
                    (plus_zero) (h 0 f refl serves (ground arith)),
                later,
              )
        | inr closed ↦ rw (other, closed) later
      ]
    ]
  where
    plus_one : (k : ℕ) → j + suc k ≡ j + 1 + k
    plus_one k = omega arith

    plus_zero : j + 0 ≡ j
    plus_zero = omega arith

added-Relayed :
    (ifaces : List Interface) (i : ℕ) (p p' : Packet) (size : ℕ) {ts : List Tag} {ok : Bool}
    → length p.payload ≡ eth_jumbo_len
    → Reads p ts ok
    → add_tag p (relay_tag i p.source) ≡ some p'
    → All (Relayed ifaces i p.source ts ok) (broadcast_on i p' size 0 ifaces)
added-Relayed ifaces i p p' size {ts} {ok} whole s e =
    broadcast_on-All (Relayed ifaces i p.source ts ok) i p' size 0 ifaces (λ k f there serves ne.
      record {
        tagged = add_tag-Reads p (relay_tag i p.source) whole (omega arith) s e;
        other = ne;
        iface = f;
        there = subst (λ n. get_elem? ifaces n ≡ some f) (from_zero k) there;
        serving = serves;
        from = refl;
      })
  where
    from_zero : (k : ℕ) → k ≡ 0 + k
    from_zero k = omega arith

found-Relayed :
    (ifaces : List Interface) (i : ℕ) (p : Packet) (size : ℕ) (sent : List Sent) {ts : List Tag}
    {ok : Bool} (found : Option (Option (ℕ × Tag))) (added : Option Packet)
    → length p.payload ≡ eth_jumbo_len
    → Reads p ts ok
    → add_tag p (relay_tag i p.source) ≡ added
    → (found >>= λ f. elim f [
      | some _ ↦ some []
      | none ↦ elim added [ none ↦ some [] | some p' ↦ some (broadcast_on i p' size 0 ifaces) ]
    ])
      ≡ some sent
    → All (Relayed ifaces i p.source ts ok) sent
found-Relayed ifaces i p size sent none added whole s a e = cc
found-Relayed ifaces i p size sent {ts} {ok} (some (some t)) added whole s a e =
    subst (All (Relayed ifaces i p.source ts ok)) {x = []} (cc) tt
found-Relayed ifaces i p size sent {ts} {ok} (some none) none whole s a e =
    subst (All (Relayed ifaces i p.source ts ok)) {x = []} (cc) tt
found-Relayed ifaces i p size sent {ts} {ok} (some none) (some p') whole s a e =
    subst (All (Relayed ifaces i p.source ts ok)) {x = broadcast_on i p' size 0 ifaces} (cc)
      (added-Relayed ifaces i p p' size whole s a)

-- Where the array of a PADI is whole, every packet that goes out for it holds the tags of the PADI behind
-- the relay's own tag, which names the interface that the PADI came in on and the client's address. It
-- goes to another interface, one for access concentrators, from that interface's address.
pub relay_handle_padi-Relayed :
    (ifaces : List Interface) (i : ℕ) (iface : Interface) (p : Packet) (size : ℕ) {ts : List Tag}
    {ok : Bool} {sent : List Sent}
    → length p.payload ≡ eth_jumbo_len
    → Reads p ts ok
    → relay_handle_padi ifaces i iface p size ≡ some sent
    → All (Relayed ifaces i p.source ts ok) sent
unfolding relay_handle_padi
relay_handle_padi-Relayed ifaces i iface p size {ts} {ok} {sent} whole s e =
    let added = add_tag p (relay_tag i p.source) in
    let last = find_tag p tag_relay_session_id >>= λ f. elim f [
      | some _ ↦ some []
      | none ↦ elim added [
        | none ↦ some []
        | some p' ↦ some (broadcast_on i p' (size + my_relay_tag_len + tag_hdr_size) 0 ifaces)
      ]
    ] in
    elim (guard_inv (not iface.client_ok)
      (if not_unicast p.source then some [] else if not (broadcast p.dest) then some [] else last)
      sent e) [
        | inl z ↦ nothing z
        | inr e1 ↦
            elim (guard_inv (not_unicast p.source)
              (if not (broadcast p.dest) then some [] else last) sent e1) [
                | inl z ↦ nothing z
                | inr e2 ↦ elim (guard_inv (not (broadcast p.dest)) last sent e2) [
                  | inl z ↦ nothing z
                  | inr e3 ↦
                      found-Relayed ifaces i p (size + my_relay_tag_len + tag_hdr_size) sent
                        (find_tag p tag_relay_session_id) added whole s refl e3
                ]
              ]
      ]
  where
    nothing : sent ≡ [] → All (Relayed ifaces i p.source ts ok) sent
    nothing z = subst (All (Relayed ifaces i p.source ts ok)) (sym z) tt
