-- ===== src/Pppoe/Server/Padt.antt =====
-- Which session a PADT stops.
use zy_agf.Prelude.{
  ℕ, ◌+◌, ◌<◌, bit_or, true, List, ◌==◌, leb, ◌≡◌, refl, ap, ◌∙◌, arith, Bool-cases, inl, inr,
  lt→leb,
}
use zy_agf.Pppoe.Packet.{Packet}
use zy_agf.Pppoe.Relay.{update, mac_eq}
use zy_agf.Pppoe.Relay.Table.{mac_eq-eq, mac_eq_refl}
use zy_agf.Pppoe.Server.{Pool, flag_recvd_padt, session_index, process_padt}

-- The pool when a session's function is called.
abbrev pub marked : ℕ → Pool → Pool
marked i p = record p {
  slots =
      update p.slots i (record (p.slots i) { flags = bit_or (p.slots i).flags flag_recvd_padt });
}

index_lem :
    (sess_offset i : ℕ)
    → sess_offset + i + 1 < 65536
    → session_index sess_offset (i + 1 + sess_offset) ≡ i
index_lem sess_offset i h = omega arith

-- A PADT to our address that has the number of a session, as `main` numbers them, and comes from the
-- session's client stops that session, which is marked before.
pub process_padt-stops :
    (stop : ℕ → Pool → Pool) (my_addr : List ℕ) (sess_offset num_slots i : ℕ) (sess : ℕ → ℕ)
    (packet : Packet) (p : Pool)
    → packet.dest ≡ my_addr
    → packet.source ≡ (p.slots i).eth
    → packet.session ≡ i + 1 + sess_offset
    → sess i ≡ i + 1 + sess_offset
    → i < num_slots
    → num_slots + sess_offset < 65536
    → process_padt stop my_addr sess_offset num_slots sess packet p ≡ stop i (marked i p)
unfolding process_padt
process_padt-stops stop my_addr sess_offset num_slots i sess packet p to from number own a b =
    let at : session_index sess_offset packet.session ≡ i =
      ap (session_index sess_offset) number ∙ index_lem sess_offset i (omega arith) in
    let dest : mac_eq packet.dest my_addr ≡ true =
      ap (λ m. mac_eq m my_addr) to ∙ mac_eq_refl my_addr in
    let source : mac_eq packet.source (p.slots i).eth ≡ true =
      ap (λ m. mac_eq m (p.slots i).eth) from ∙ mac_eq_refl (p.slots i).eth in
    let same : (sess i == packet.session) ≡ true = ground arith in
    rw (dest, at, lt→leb num_slots i a, same, source) refl

-- What a PADT does: nothing, or it stops a session that exists, whose number it has, and from whose client it
-- comes.
pub data Padt (stop : ℕ → Pool → Pool) (my_addr : List ℕ) (num_slots : ℕ) (sess : ℕ → ℕ)
    (packet : Packet) (p : Pool) : Pool → Type 0 where
  ignored : Padt stop my_addr num_slots sess packet p p
  stopped :
      (i : ℕ)
      → i < num_slots
      → sess i ≡ packet.session
      → packet.source ≡ (p.slots i).eth
      → packet.dest ≡ my_addr
      → Padt stop my_addr num_slots sess packet p (stop i (marked i p))

-- A PADT of any contents does nothing, or it stops a session that exists, whose number it has, and from
-- whose client it comes.
pub process_padt-Padt :
    (stop : ℕ → Pool → Pool) (my_addr : List ℕ) (sess_offset num_slots : ℕ) (sess : ℕ → ℕ)
    (packet : Packet) (p : Pool)
    → Padt stop my_addr num_slots sess packet p
        (process_padt stop my_addr sess_offset num_slots sess packet p)
unfolding process_padt
process_padt-Padt stop my_addr sess_offset num_slots sess packet p =
    let i = session_index sess_offset packet.session in
    elim (Bool-cases (mac_eq packet.dest my_addr)) [
      | inr c ↦ rw c ignored
      | inl c ↦ elim (Bool-cases (leb num_slots i)) [
        | inl d ↦ rw (c, d) ignored
        | inr d ↦ elim (Bool-cases (sess i == packet.session)) [
          | inr e ↦ rw (c, d, e) ignored
          | inl e ↦ elim (Bool-cases (mac_eq packet.source (p.slots i).eth)) [
            | inr f ↦ rw (c, d, e, f) ignored
            | inl f ↦
                rw (c, d, e, f)
                  (stopped i (ground arith) (ground arith)
                    (mac_eq-eq packet.source (p.slots i).eth f) (mac_eq-eq packet.dest my_addr c))
          ]
        ]
      ]
    ]
