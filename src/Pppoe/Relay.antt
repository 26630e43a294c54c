-- ===== src/Pppoe/Relay.antt =====
-- rp-pppoe/src/relay.c: the table of sessions. A session and a hash entry are named by their index in
-- `AllSessions` and `AllHashes`; those arrays are functions. The linked lists are lists of indices.
-- `none` is the use of a null pointer.
pub mod Table
pub mod Ports
pub mod Offers
pub mod Pads
pub mod Handlers
pub mod Invariant
mod Tests
use zy_agf.Prelude.{
  ℕ, zero, suc, ◌+◌, ◌-◌, ◌*◌, ◌%◌, ◌/◌, bit_or, bit_xor, Bool, true, false, not, ◌&&◌, ◌||◌,
  Option, none, some, List, [], ◌∷◌, ◌==◌, ltb, leb, if◌then◌else◌, get_or,
}

-- `PPPoESession`
pub record Session : Type 0 where
  pub ac_hash : ℕ
  pub client_hash : ℕ
  pub epoch : ℕ
  pub ses_num : ℕ

-- `SessionHash`; `interface` is an index in `Interfaces`.
pub record SessionHash : Type 0 where
  pub peer : ℕ
  pub interface : ℕ
  pub peer_mac : List ℕ
  pub ses_num : ℕ
  pub ses : ℕ

-- The globals of the relay that concern sessions.
pub record Relay : Type 0 where
  pub num_sessions : ℕ
  pub max_sessions : ℕ
  pub sessions : ℕ → Session
  pub free_sessions : List ℕ
  pub active_sessions : List ℕ
  pub hashes : ℕ → SessionHash
  pub free_hashes : List ℕ
  pub buckets : ℕ → List ℕ
  pub epoch : ℕ

abbrev pub update {ℓ} : {A : Type ℓ} → (ℕ → A) → ℕ → A → ℕ → A
update f i a j = if i == j then a else f j

abbrev pub hashtab_size : ℕ
hashtab_size = 18917

-- `!memcmp` over the bytes of two addresses
unfoldable pub mac_eq : List ℕ → List ℕ → Bool
mac_eq [] [] = true
mac_eq (x ∷ xs) (y ∷ ys) = x == y && mac_eq xs ys
mac_eq _ _ = false

-- A 16-bit number of the wire as the little-endian machine holds it.
abbrev pub swap16 : ℕ → ℕ
swap16 n = n % 256 * 256 + n / 256 % 256

unfoldable pub hash : List ℕ → ℕ → ℕ
hash mac ses_num =
    let ans1 =
      bit_or (bit_or (bit_or (get_or mac 0 0) (get_or mac 1 0 * 256)) (get_or mac 2 0 * 65536))
        (get_or mac 3 0 * 16777216) in
    let ans2 =
      bit_or (bit_or (swap16 ses_num) (get_or mac 4 0 * 65536)) (get_or mac 5 0 * 16777216) in
    bit_xor ans1 ans2

abbrev pub bucket_of : List ℕ → ℕ → ℕ
bucket_of mac ses_num = hash mac ses_num % hashtab_size

-- Whether an entry is the one for an address and a session number.
abbrev pub is_entry : List ℕ → ℕ → SessionHash → Bool
is_entry mac ses_num sh = mac_eq mac sh.peer_mac && ses_num == sh.ses_num

unfoldable pub find_in : (ℕ → SessionHash) → List ℕ → ℕ → List ℕ → Option ℕ
find_in hashes mac ses_num [] = none
find_in hashes mac ses_num (h ∷ chain) =
    if is_entry mac ses_num (hashes h) then some h else find_in hashes mac ses_num chain

unfoldable pub find_session : Relay → List ℕ → ℕ → Option ℕ
unfolding find_in
find_session r mac ses_num = find_in r.hashes mac ses_num (r.buckets (bucket_of mac ses_num))

unfoldable pub add_hash : ℕ → Relay → Relay
add_hash h r =
    let sh = r.hashes h in
    let b = bucket_of sh.peer_mac sh.ses_num in
    record r { buckets = update r.buckets b (h ∷ r.buckets b) }

-- A node unlinked from its list.
unfoldable pub remove : ℕ → List ℕ → List ℕ
remove x [] = []
remove x (y ∷ ys) = if y == x then ys else y ∷ remove x ys

unfoldable pub unhash : ℕ → Relay → Relay
unfolding remove
unhash h r =
    let sh = r.hashes h in
    let b = bucket_of sh.peer_mac sh.ses_num in
    record r {
      buckets = update r.buckets b (remove h (r.buckets b));
      free_hashes = h ∷ r.free_hashes;
    }

-- `createSession` with the session and the two entries that it takes from the free lists.
unfoldable pub link_session :
    ℕ → ℕ → List ℕ → List ℕ → ℕ → Relay → ℕ → List ℕ → ℕ → ℕ → List ℕ → Relay
unfolding add_hash
link_session ac cli ac_mac cli_mac ac_ses r sess free_sessions ac_hash cli_hash free_hashes =
    let old = r.sessions sess in
    let ac_entry : SessionHash = record {
      peer = cli_hash;
      interface = ac;
      peer_mac = ac_mac;
      ses_num = ac_ses;
      ses = sess;
    } in
    let cli_entry : SessionHash = record {
      peer = ac_hash;
      interface = cli;
      peer_mac = cli_mac;
      ses_num = old.ses_num;
      ses = sess;
    } in
    add_hash cli_hash (
      add_hash ac_hash (record r {
        num_sessions = r.num_sessions + 1;
        sessions =
            update r.sessions sess
              (record old { ac_hash = ac_hash; client_hash = cli_hash; epoch = r.epoch });
        free_sessions = free_sessions;
        active_sessions = sess ∷ r.active_sessions;
        hashes = update (update r.hashes ac_hash ac_entry) cli_hash cli_entry;
        free_hashes = free_hashes;
      }))

unfoldable pub take_hashes :
    ℕ → ℕ → List ℕ → List ℕ → ℕ → Relay → List ℕ → List ℕ → Option (Option ℕ × Relay)
take_hashes ac cli ac_mac cli_mac ac_ses r (sess ∷ free_sessions)
      (ac_hash ∷ cli_hash ∷ free_hashes) =
    some (
      some sess,
      link_session ac cli ac_mac cli_mac ac_ses r sess free_sessions ac_hash cli_hash free_hashes,
    )
take_hashes ac cli ac_mac cli_mac ac_ses r _ _ = none

-- The session, or NULL where the table is full.
unfoldable pub create_session : ℕ → ℕ → List ℕ → List ℕ → ℕ → Relay → Option (Option ℕ × Relay)
unfolding take_hashes link_session
create_session ac cli ac_mac cli_mac ac_ses r =
    if leb r.max_sessions r.num_sessions
    then some (none, r)
    else take_hashes ac cli ac_mac cli_mac ac_ses r r.free_sessions r.free_hashes

unfoldable pub free_session : ℕ → Relay → Relay
unfolding unhash remove
free_session s r =
    let ses = r.sessions s in
    let r1 = record r {
      active_sessions = remove s r.active_sessions;
      free_sessions = s ∷ r.free_sessions;
    } in
    let r2 = unhash ses.client_hash (unhash ses.ac_hash r1) in
    record r2 { num_sessions = r2.num_sessions - 1 }

-- `i`, `i + 1`, and so on, `n` of them.
unfoldable pub indices : ℕ → ℕ → List ℕ
indices i zero = []
indices i (suc n) = i ∷ indices (i + 1) n

-- `initRelay`: entries are zero after `calloc`.
unfoldable pub init_relay : ℕ → Relay
unfolding indices
init_relay nsess = record {
  num_sessions = 0;
  max_sessions = nsess;
  sessions = λ i. record { ac_hash = 0; client_hash = 0; epoch = 0; ses_num = (i + 1) % 65536 };
  free_sessions = indices 0 nsess;
  active_sessions = [];
  hashes = λ i. record { peer = 0; interface = 0; peer_mac = []; ses_num = 0; ses = 0 };
  free_hashes = indices 0 (2 * nsess);
  buckets = λ b. [];
  epoch = 0;
}
