-- ===== src/Xl2tpd/Control/Ack.antt =====
-- Acknowledgements: what is sent for a message, and the ZLB.
use zy_agf.Prelude.{ℕ, ◌+◌, ◌%◌, ◌≤◌, true, false, [], ◌∷◌, ◌≡◌, ◌↔◌, arith}
use zy_agf.Xl2tpd.Control.{
  ControlHdr, Tunnel, Call, Handler, control_zlb, check_control, handle_control, acknowledge,
  handle_special, control_hdr_size, ctbit,
}
use zy_agf.Xl2tpd.Control.Window.{IsTunnel}

-- Where the number that `u` expects is the one that `t` sends next, and all counters are 16-bit numbers,
-- a ZLB of `t` is accepted by `u`: it tells `u` the number that `t` expects, changes nothing else of
-- the tunnel, and is not answered.
pub zlb_roundtrip :
    (handle : Handler) (t u : Tunnel) (c d : Call)
    → IsTunnel t
    → IsTunnel u
    → u.control_rec_seq_num ≡ t.control_seq_num
    → let r = handle_control handle (control_zlb t c).0 control_hdr_size u d in
      (r.ok ≡ true)
      × (r.tunnel ≡ record u { clr = t.control_rec_seq_num })
      × (r.call.cnu ≡ false)
      × (r.sent ≡ [])
unfolding handle_control check_control control_zlb
zlb_roundtrip handle t u c d v w e = ground arith

-- A ZLB with the number expected and its length right, for a call with `needclose` and `closing` on a
-- tunnel without the sanity checks, clears `needclose` exactly if its Nr is at least `closeSs`.
pub zlb_closing :
    (handle : Handler) (h : ControlHdr) (t : Tunnel) (c : Call)
    → h.ns ≡ t.control_rec_seq_num
    → h.length ≡ control_hdr_size
    → t.sanity ≡ false
    → c.needclose ≡ true
    → c.closing ≡ true
    → ((handle_control handle h control_hdr_size t c).call.needclose ≡ false) ↔ (c.close_ss ≤ h.nr)
unfolding handle_control check_control
zlb_closing handle h t c e l s n k = ground arith

-- After a message that `check_control` took, where the counters are 16-bit numbers, `acknowledge` sends
-- one ZLB, whose Nr is the number after the message's and whose Ns is the tunnel's own counter; it
-- leaves the tunnel as it is and clears `cnu`.
pub acknowledge-taken :
    (h : ControlHdr) (len : ℕ) (t : Tunnel) (c : Call)
    → IsTunnel t
    → (check_control h len t c).ok ≡ true
    → let r = check_control h len t c in
      let a = acknowledge r.tunnel r.call in
      (a.sent ≡ (control_zlb r.tunnel r.call).0 ∷ [])
      × ((control_zlb r.tunnel r.call).0.nr ≡ (h.ns + 1) % 65536)
      × ((control_zlb r.tunnel r.call).0.ns ≡ t.control_seq_num)
      × (a.tunnel ≡ r.tunnel)
      × (a.call.cnu ≡ false)
unfolding check_control acknowledge control_zlb
acknowledge-taken h len t c v e = ground arith

-- A ZLB that `check_control` takes moves the expected number on where it comes in for a call that does
-- not exist, by `handle_special`; `handle_control` leaves the number as it was.
handle_special_zlb :
    (handle : Handler) (h : ControlHdr) (call : ℕ) (t : Tunnel) (c : Call)
    → IsTunnel t
    → ctbit h.ver ≡ true
    → (check_control h control_hdr_size t (record c { cid = call })).ok ≡ true
    → ((handle_special h control_hdr_size call t c).tunnel.control_rec_seq_num
        ≡ (t.control_rec_seq_num + 1) % 65536)
      × ((handle_control handle h control_hdr_size t
            (record c { cid = call })).tunnel.control_rec_seq_num
          ≡ t.control_rec_seq_num)
unfolding check_control handle_special handle_control
handle_special_zlb handle h call t c v b e = ground arith
