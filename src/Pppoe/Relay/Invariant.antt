-- ===== src/Pppoe/Relay/Invariant.antt =====
-- The table of sessions, well formed: which entries are in which chain, and what the free lists hold.
pub mod Lists
pub mod Live
pub mod Link
pub mod Create
pub mod Free
pub mod Lookup
pub mod Reach
pub mod Steps
pub mod Discovery
pub mod Always
pub mod Clean
pub mod Run
mod Tests
use zy_agf.Prelude.{ℕ, ◌+◌, ◌*◌, ◌<◌, Bool, true, false, ◌&&◌, ◌||◌, List, ◌==◌, length, ◌≡◌, ◌≢◌}
use zy_agf.Pppoe.Relay.{Relay, bucket_of}
use zy_agf.Pppoe.Relay.Table.{elem}
use zy_agf.Pppoe.Relay.Invariant.Lists.{nodup}

-- The bucket of an entry.
abbrev pub home : Relay → ℕ → ℕ
home r h = bucket_of (r.hashes h).peer_mac (r.hashes h).ses_num

-- Whether an entry is one of the two of an active session.
abbrev pub live : Relay → ℕ → Bool
live r h =
    let s = (r.hashes h).ses in
    elem s r.active_sessions && ((r.sessions s).ac_hash == h || (r.sessions s).client_hash == h)

-- What the two entries of an active session say of each other; `n` is the number of interfaces.
pub record IsPair (n : ℕ) (r : Relay) (s : ℕ) : Type 0 where
  pub ac_ses : (r.hashes (r.sessions s).ac_hash).ses ≡ s
  pub client_ses : (r.hashes (r.sessions s).client_hash).ses ≡ s
  pub ac_peer : (r.hashes (r.sessions s).ac_hash).peer ≡ (r.sessions s).client_hash
  pub client_peer : (r.hashes (r.sessions s).client_hash).peer ≡ (r.sessions s).ac_hash
  pub two : (r.sessions s).ac_hash ≢ (r.sessions s).client_hash
  pub ac_interface : (r.hashes (r.sessions s).ac_hash).interface < n
  pub client_interface : (r.hashes (r.sessions s).client_hash).interface < n

-- The lists of the table.
pub record IsCounted (r : Relay) : Type 0 where
  pub active_once : nodup r.active_sessions ≡ true
  pub free_once : nodup r.free_sessions ≡ true
  pub hashes_once : nodup r.free_hashes ≡ true
  pub number : r.num_sessions ≡ length r.active_sessions
  pub all_sessions : r.num_sessions + length r.free_sessions ≡ r.max_sessions
  pub all_hashes : length r.free_hashes ≡ 2 * length r.free_sessions

pub record IsValid (n : ℕ) (r : Relay) : Type 0 where
  pub counted : IsCounted r
  pub chained : (b h : ℕ) → elem h (r.buckets b) ≡ (home r h == b && live r h)
  pub chain_once : (b : ℕ) → nodup (r.buckets b) ≡ true
  pub free_idle : (s : ℕ) → elem s r.free_sessions ≡ true → elem s r.active_sessions ≡ false
  pub free_dead : (h : ℕ) → elem h r.free_hashes ≡ true → live r h ≡ false
  pub pair : (s : ℕ) → elem s r.active_sessions ≡ true → IsPair n r s
