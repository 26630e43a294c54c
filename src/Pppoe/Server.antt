-- ===== src/Pppoe/Server.antt =====
-- rp-pppoe/src/pppoe-server.c: the pool of sessions, with its lists as the pointers of the sessions, and
-- `incrementIPAddress`. A session is named by its index in `Sessions`.
pub mod Lists
pub mod Unlink
pub mod Alloc
pub mod Release
pub mod Run
pub mod Padt
pub mod Address
mod Tests
use zy_agf.Prelude.{
  ℕ, zero, suc, ◌+◌, ◌-◌, ◌%◌, ◌^◌, bit_or, Bool, true, false, Option, none, some, List, [], ◌∷◌,
  ◌==◌, ltb, leb, not, if◌then◌else◌,
}
use zy_agf.Pppoe.Packet.{Packet}
use zy_agf.Pppoe.Relay.{update, mac_eq}

-- The fields of a session that the pool sets.
pub record Slot : Type 0 where
  pub pid : ℕ
  pub eth : List ℕ
  pub flags : ℕ
  pub start_time : ℕ
  pub requested_mtu : ℕ

-- `next` of each session, the heads of the two lists, and the last free session.
pub record Pool : Type 0 where
  pub next : ℕ → Option ℕ
  pub free_sessions : Option ℕ
  pub last_free : Option ℕ
  pub busy_sessions : Option ℕ
  pub num_active : ℕ
  pub slots : ℕ → Slot

abbrev pub is_session : ℕ → Option ℕ → Bool
is_session s none = false
is_session s (some x) = x == s

abbrev pub no_eth : List ℕ
no_eth = 0 ∷ 0 ∷ 0 ∷ 0 ∷ 0 ∷ 0 ∷ []

-- The sessions linked in their order, as `main` links them without permutation; one at least.
unfoldable pub init_pool : ℕ → Pool
init_pool num_slots = record {
  next = λ i. if ltb (i + 1) num_slots then some (i + 1) else none;
  free_sessions = some 0;
  last_free = some (num_slots - 1);
  busy_sessions = none;
  num_active = 0;
  slots = λ i. record { pid = 0; eth = no_eth; flags = 0; start_time = 0; requested_mtu = 0 };
}

unfoldable pub pppoe_alloc_session : ℕ → Pool → Option ℕ × Pool
pppoe_alloc_session time p = elim p.free_sessions [
  | none ↦ (none, p)
  | some ses ↦ (
    some ses,
    record {
      next = update p.next ses p.busy_sessions;
      free_sessions = p.next ses;
      last_free = if is_session ses p.last_free then none else p.last_free;
      busy_sessions = some ses;
      num_active = p.num_active + 1;
      slots =
          update p.slots ses
            (record { pid = 0; eth = no_eth; flags = 0; start_time = time; requested_mtu = 0 });
    },
  )
]

-- The loop that looks for a session on the busy list, from `cur` on: what stands before it. The outer
-- `none` is out of fuel, the inner one the end of the list.
unfoldable pub find_busy : (ℕ → Option ℕ) → ℕ → ℕ → Option ℕ → Option ℕ → Option (Option (Option ℕ))
find_busy next ses zero prev cur = none
find_busy next ses (suc fuel) prev none = some none
find_busy next ses (suc fuel) prev (some cur) =
    let rest = find_busy next ses fuel (some cur) (next cur) in
    if cur == ses then some (some prev) else rest

-- The session is taken from the busy list.
unfoldable pub unlink_busy : ℕ → Option ℕ → Pool → Pool
unlink_busy ses none p = record p { busy_sessions = p.next ses }
unlink_busy ses (some prev) p = record p { next = update p.next prev (p.next ses) }

-- It is put at the end of the free list.
unfoldable pub link_free : ℕ → Option ℕ → Pool → Pool
link_free ses none p = record p {
  next = update p.next ses none;
  free_sessions = some ses;
  last_free = some ses;
}
link_free ses (some last) p = record p {
  next = update (update p.next ses none) last (some ses);
  last_free = some ses;
}

-- The result is whether the session was on the busy list: 0, or else -1.
unfoldable pub pppoe_free_session : ℕ → ℕ → Pool → Option (Bool × Pool)
unfolding find_busy unlink_busy link_free
pppoe_free_session fuel ses p = elim (find_busy p.next ses fuel none p.busy_sessions) [
  | none ↦ none
  | some found ↦ elim found [
    | none ↦ some (false, p)
    | some prev ↦
        let p1 = unlink_busy ses prev p in
        let p2 = link_free ses p1.last_free p1 in
        some (
          true,
          record p2 {
            num_active = p2.num_active - 1;
            slots =
                update p2.slots ses (record (p2.slots ses) { pid = 0; eth = no_eth; flags = 0 });
          },
        )
  ]
]

abbrev pub flag_recvd_padt : ℕ
flag_recvd_padt = 1

-- The index of a session's number, in `size_t`.
abbrev pub session_index : ℕ → ℕ → ℕ
session_index sess_offset session = (session + 2 ^ 64 - 1 + 2 ^ 64 - sess_offset) % 2 ^ 64

-- `processPADT`; `sess` is the session's number of each slot, and `stop` the session's own function.
unfoldable pub process_padt : (ℕ → Pool → Pool) → List ℕ → ℕ → ℕ → (ℕ → ℕ) → Packet → Pool → Pool
process_padt stop my_addr sess_offset num_slots sess packet p =
    let i = session_index sess_offset packet.session in
    let slot = p.slots i in
    if not (mac_eq packet.dest my_addr)
    then p
    else if leb num_slots i
    then p
    else if not (sess i == packet.session)
    then p
    else if not (mac_eq packet.source slot.eth)
    then p
    else stop i (record p {
      slots = update p.slots i (record slot { flags = bit_or slot.flags flag_recvd_padt });
    })

-- `incrementIPAddress` on the four bytes.
unfoldable pub increment_ip_address : ℕ → ℕ → ℕ → ℕ → ℕ × ℕ × ℕ × ℕ
increment_ip_address a b c d =
    let d' = (d + 1) % 256 in
    let c' = (c + 1) % 256 in
    let b' = (b + 1) % 256 in
    if d' == 0
    then if c' == 0
      then if b' == 0 then ((a + 1) % 256, b', c', d') else (a, b', c', d')
      else (a, b, c', d')
    else (a, b, c, d')
