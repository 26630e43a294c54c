-- ===== src/Xl2tpd/Control/Tests.antt =====
-- Tests and examples of the control channel.
use zy_agf.Prelude.{ℕ, true, false, List, [], ◌∷◌, ◌≡◌, refl, arith, pos}
use zy_agf.Xl2tpd.Control.{
  ControlHdr, Tunnel, Call, Handler, control_hdr_size, control_ver, control_zlb, check_control,
  out_of_order, handle_control, zlb_received, already_received,
}
use zy_agf.Xl2tpd.Control.Window.{
  IsTunnel, Arrival, Consecutive, Leaves, handle_all, check_control_no_wrap, handle_all-Consecutive,
}
use zy_agf.Xl2tpd.Control.Ack.{zlb_roundtrip}

abbrev tunnel : Tunnel
tunnel = record {
  tid = pos 5;
  control_seq_num = 3;
  control_rec_seq_num = 65535;
  clr = 2;
  sanity = true;
}

abbrev peer : Tunnel
peer = record {
  tid = pos 9;
  control_seq_num = 65535;
  control_rec_seq_num = 3;
  clr = 3;
  sanity = true;
}

abbrev call : Call
call = record {
  cid = 0;
  cnu = false;
  needclose = false;
  closing = false;
  msgtype = pos 0;
  close_ss = 0;
}

tunnel-IsTunnel : IsTunnel tunnel
tunnel-IsTunnel = record { seq = omega arith; rec_seq = omega arith }

peer-IsTunnel : IsTunnel peer
peer-IsTunnel = record { seq = omega arith; rec_seq = omega arith }

abbrev message : ℕ → ControlHdr
message ns = record { ver = control_ver; length = 20; tid = 5; cid = 0; ns = ns; nr = 3 }

abbrev zlb : ℕ → ControlHdr
zlb ns = record { ver = control_ver; length = 12; tid = 5; cid = 0; ns = ns; nr = 3 }

-- A handler that only acknowledges.
abbrev accept : Handler
accept t c = record { ok = true; tunnel = t; call = c; sent = [] }

accept-Leaves : Leaves accept
accept-Leaves = record { rec_seq = λ t c. refl }

-- A message, its duplicate, one that is too early, a ZLB, and the next message, round the counter's end.
abbrev arrivals : List Arrival
arrivals =
    record { hdr = message 65535; len = 20 }
    ∷ record { hdr = message 65535; len = 20 }
    ∷ record { hdr = message 1; len = 20 }
    ∷ record { hdr = zlb 0; len = 12 }
    ∷ record { hdr = message 0; len = 20 }
    ∷ []

handle_all-arrivals : handle_all accept arrivals tunnel call ≡ 65535 ∷ 0 ∷ []
unfolding handle_all handle_control check_control out_of_order zlb_received control_zlb
    already_received
handle_all-arrivals = refl

handle_all-Consecutive_example : Consecutive 65535 (handle_all accept arrivals tunnel call)
handle_all-Consecutive_example =
    handle_all-Consecutive accept arrivals tunnel call accept-Leaves
      (refl, (refl, (refl, (refl, (refl, tt))))) (omega arith)

taken : (check_control (message 65535) 20 tunnel call).ok ≡ true
unfolding check_control
taken = refl

-- The peer expects 3; the message before the wrap was 65535.
check_control_no_wrap_example :
    ((check_control (message 65535) 20 peer call).ok ≡ false)
    × ((check_control (message 65535) 20 peer call).sent ≡ [])
check_control_no_wrap_example = check_control_no_wrap (message 65535) 20 peer call (omega arith)

zlb_roundtrip_example :
    let r = handle_control accept (control_zlb tunnel call).0 control_hdr_size peer call in
    (r.ok ≡ true)
    × (r.tunnel ≡ record peer { clr = tunnel.control_rec_seq_num })
    × (r.call.cnu ≡ false)
    × (r.sent ≡ [])
zlb_roundtrip_example =
    zlb_roundtrip accept tunnel peer call call tunnel-IsTunnel peer-IsTunnel refl

abbrev plain : Tunnel
plain = record tunnel { sanity = false }

abbrev leaving : Call
leaving = record call { needclose = true; closing = true; close_ss = 2 }

zlb_taken : (check_control (zlb 65535) 12 tunnel (record call { cid = 8 })).ok ≡ true
unfolding check_control
zlb_taken = refl
