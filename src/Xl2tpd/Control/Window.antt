-- ===== src/Xl2tpd/Control/Window.antt =====
-- Which control messages are taken, and how the expected number moves.
use zy_agf.Prelude.{
  ℕ, ◌+◌, ◌%◌, ◌≤◌, ◌<◌, Bool, true, false, List, [], ◌∷◌, ◌==◌, ◌≡◌, ◌≢◌, arith, inl, inr, ◌&&◌,
  not, if◌then◌else◌, Bool-cases, subst, negsuc,
}
use zy_agf.Xl2tpd.Control.{
  ControlHdr, Tunnel, Call, Handler, control_zlb, check_control, handle_control, control_hdr_size,
  ctbit, clbit, cfbit, cver,
}

-- The counters are 16-bit numbers.
pub record IsTunnel (t : Tunnel) : Type 0 where
  pub seq : t.control_seq_num < 65536
  pub rec_seq : t.control_rec_seq_num < 65536

-- A ZLB leaves the tunnel as it was.
pub control_zlb-tunnel : (t : Tunnel) (c : Call) → IsTunnel t → (control_zlb t c).1 ≡ t
unfolding control_zlb
control_zlb-tunnel t c v = ground arith

-- Where the counters are 16-bit numbers: a message that is taken has the number expected, the length
-- that its header states, and at least a header. The expected number moves on by one, round 65536, and
-- `cLr` is the message's Nr.
pub check_control-taken :
    (h : ControlHdr) (len : ℕ) (t : Tunnel) (c : Call)
    → IsTunnel t
    → (check_control h len t c).ok ≡ true
    → (h.ns ≡ t.control_rec_seq_num)
      × (len ≡ h.length)
      × (control_hdr_size ≤ len)
      × ((check_control h len t c).tunnel.control_rec_seq_num ≡ (t.control_rec_seq_num + 1) % 65536)
      × ((check_control h len t c).tunnel.clr ≡ h.nr)
unfolding check_control
check_control-taken h len t c v e = ground arith

-- A message with another number than the one expected is refused, and the tunnel stays as it was, where
-- its counters are 16-bit numbers.
pub check_control-refused :
    (h : ControlHdr) (len : ℕ) (t : Tunnel) (c : Call)
    → IsTunnel t
    → h.ns ≢ t.control_rec_seq_num
    → ((check_control h len t c).ok ≡ false) × ((check_control h len t c).tunnel ≡ t)
unfolding check_control
check_control-refused h len t c v e = ground arith

-- The counters stay 16-bit numbers.
pub check_control-IsTunnel :
    (h : ControlHdr) (len : ℕ) (t : Tunnel) (c : Call)
    → IsTunnel t
    → IsTunnel (check_control h len t c).tunnel
unfolding check_control
check_control-IsTunnel h len t c v = ground arith

-- A message of the stated length, longer than its header, whose number is one of the 32767 before the
-- expected one with no wrap in between, is answered by exactly one ZLB.
pub check_control_duplicate :
    (h : ControlHdr) (t : Tunnel) (c : Call)
    → control_hdr_size < h.length
    → h.ns < t.control_rec_seq_num
    → t.control_rec_seq_num < h.ns + 32768
    → (check_control h h.length t c).sent ≡ (control_zlb t c).0 ∷ []
unfolding check_control
check_control_duplicate h t c l k m = ground arith

-- A message whose number is larger than the expected one, as that of a duplicate from before the
-- counter's wrap is, is refused and never answered.
pub check_control_no_wrap :
    (h : ControlHdr) (len : ℕ) (t : Tunnel) (c : Call)
    → t.control_rec_seq_num < h.ns
    → ((check_control h len t c).ok ≡ false) × ((check_control h len t c).sent ≡ [])
unfolding check_control
check_control_no_wrap h len t c k = ground arith

-- The messages of a peer, in the order in which they arrive.
pub record Arrival : Type 0 where
  pub hdr : ControlHdr
  pub len : ℕ

-- Whether the body of a message goes to its handler.
abbrev pub is_handled : Arrival → Tunnel → Call → Bool
is_handled a t c = (check_control a.hdr a.len t c).ok && not (a.len == control_hdr_size)

-- `handle_control` over a sequence of messages; the numbers of those whose body was handled.
unfoldable pub handle_all : Handler → List Arrival → Tunnel → Call → List ℕ
handle_all handle [] t c = []
handle_all handle (a ∷ rest) t c =
    let r = handle_control handle a.hdr a.len t c in
    let later = handle_all handle rest r.tunnel r.call in
    if is_handled a t c then a.hdr.ns ∷ later else later

-- Numbers that follow one another from `n` on, round a 16-bit counter.
abbrev pub Consecutive : ℕ → List ℕ → Type 0
Consecutive n [] = Unit
Consecutive n (m ∷ ms) = (m ≡ n) × Consecutive ((n + 1) % 65536) ms

-- The header bits that `check_control` asks for.
abbrev pub HasBits : List Arrival → Type 0
HasBits [] = Unit
HasBits (a ∷ rest) =
    ((ctbit a.hdr.ver && clbit a.hdr.ver && cfbit a.hdr.ver && cver a.hdr.ver == 2) ≡ true)
    × HasBits rest

-- Handlers of messages leave the expected number alone.
pub record Leaves (handle : Handler) : Type 0 where
  pub rec_seq :
      (t : Tunnel) (c : Call) → (handle t c).tunnel.control_rec_seq_num ≡ t.control_rec_seq_num

handled-step :
    (handle : Handler) (a : Arrival) (t : Tunnel) (c : Call)
    → Leaves handle
    → t.control_rec_seq_num < 65536
    → is_handled a t c ≡ true
    → (a.hdr.ns ≡ t.control_rec_seq_num)
      × ((handle_control handle a.hdr a.len t c).tunnel.control_rec_seq_num
          ≡ (t.control_rec_seq_num + 1) % 65536)
unfolding handle_control check_control
handled-step handle a t c v b e =
    let c1 = (check_control a.hdr a.len t c).call in
    ground
      (arith, v.rec_seq (check_control a.hdr a.len t c).tunnel (record c1 { msgtype = negsuc 0 }))

skipped-step :
    (handle : Handler) (a : Arrival) (t : Tunnel) (c : Call)
    → t.control_rec_seq_num < 65536
    → (ctbit a.hdr.ver && clbit a.hdr.ver && cfbit a.hdr.ver && cver a.hdr.ver == 2) ≡ true
    → is_handled a t c ≡ false
    → (handle_control handle a.hdr a.len t c).tunnel.control_rec_seq_num ≡ t.control_rec_seq_num
unfolding handle_control check_control
skipped-step handle a t c b bits e = ground arith

-- Whatever arrives, with duplicates, losses and disorder, the messages whose bodies are handled carry
-- consecutive numbers from the expected one on, round 65536. The conditions: the handlers leave the
-- expected number alone, every header has the bits that `check_control` asks for, and the expected
-- number is a 16-bit number.
pub handle_all-Consecutive :
    (handle : Handler) (arrivals : List Arrival) (t : Tunnel) (c : Call)
    → Leaves handle
    → HasBits arrivals
    → t.control_rec_seq_num < 65536
    → Consecutive t.control_rec_seq_num (handle_all handle arrivals t c)
unfolding handle_all
handle_all-Consecutive handle [] t c v bits b = tt
handle_all-Consecutive handle (a ∷ rest) t c v bits b =
    let r = handle_control handle a.hdr a.len t c in
    elim (Bool-cases (is_handled a t c)) [
      | inl taken ↦
          let step = handled-step handle a t c v b taken in
          rw taken (
            step.0,
            subst (λ n. Consecutive n (handle_all handle rest r.tunnel r.call)) step.1
                (handle_all-Consecutive handle rest r.tunnel r.call v bits.1
                  (omega (arith, step.1))),
          )
      | inr skipped ↦
          let same = skipped-step handle a t c b bits.0 skipped in
          rw skipped (
            subst (λ n. Consecutive n (handle_all handle rest r.tunnel r.call)) same
              (handle_all-Consecutive handle rest r.tunnel r.call v bits.1 (omega (arith, same))))
    ]
