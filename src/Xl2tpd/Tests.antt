-- ===== src/Xl2tpd/Tests.antt =====
-- Tests and examples of retransmission and of payload packets.
use zy_agf.Prelude.{ℕ, List, ◌+◌, pos, true, false, some, [], ◌∷◌, ◌≡◌, refl, arith}
use zy_agf.Xl2tpd.Retransmit.{
  Peer, Message, timer, udp_xmit, close_call, toss, deliver, control_xmit, retry,
  deliver_unconfirmed,
}
use zy_agf.Xl2tpd.Payload.{
  PayloadHdr, DataCall, sequence, add_payload_hdr, full_header, missing, expand_payload,
  check_payload,
}
use zy_agf.Xl2tpd.Payload.Expand.{expand_payload-add_payload_hdr}

abbrev hello : Message
hello = record { ns = 4; retries = 0 }

abbrev silent : Peer
silent = record { clr = 4; needclose = false; closing = false; timed_out = false }

abbrev confirming : Peer
confirming = record silent { clr = 5 }

deliver_two :
    deliver 2 hello (silent ∷ silent ∷ silent ∷ [])
    ≡ (timer 1 ∷ udp_xmit ∷ timer 2 ∷ udp_xmit ∷ close_call ∷ toss ∷ [], true)
unfolding deliver control_xmit retry
deliver_two = refl

-- A peer whose call is closing at the second expiry.
deliver_unconfirmed_example :
    deliver 2 hello (silent ∷ record silent { closing = true } ∷ silent ∷ [])
    ≡ (timer 1 ∷ udp_xmit ∷ timer 2 ∷ udp_xmit ∷ close_call ∷ toss ∷ [], true)
deliver_unconfirmed_example =
    deliver_unconfirmed 2 hello (silent ∷ record silent { closing = true } ∷ silent ∷ []) refl
      (omega arith, (omega arith, (omega arith, tt))) refl

-- A call that sends lengths and sequence numbers.
abbrev sender : DataCall
sender = record {
  cid = 11;
  lbit = true;
  fbit = true;
  ourfbit = false;
  data_seq_num = 6;
  data_rec_seq_num = 4;
  pnu = false;
  plr = 0;
}

abbrev receiver : DataCall
receiver = record sender { data_seq_num = 4; data_rec_seq_num = 5 }

abbrev early : PayloadHdr
early = record { ver = 0x4802; length = 112; tid = 3; cid = 11; ns = 6; nr = 4; o_size = 0 }

abbrev moved_on : DataCall
moved_on = record receiver { data_rec_seq_num = 6; plr = 4 }

early_taken : sequence early receiver ≡ some moved_on
unfolding sequence
early_taken = refl

abbrev packet : List ℕ
packet = 0x4802 ∷ 112 ∷ 3 ∷ 11 ∷ 6 ∷ 4 ∷ 9 ∷ 9 ∷ []

packet_taken : expand_payload 8 112 packet receiver ≡ some (early, 114, moved_on)
unfolding expand_payload full_header sequence missing
packet_taken = refl

expand_payload-add_payload_hdr_example :
    (check_payload true true 112 packet ≡ true)
    × (early.tid ≡ 3)
    × (early.cid ≡ 11)
    × (early.ns ≡ sender.data_seq_num)
    × (early.nr ≡ sender.data_rec_seq_num)
    × (early.o_size ≡ 0)
    × (114 ≡ 100 + 14)
unfolding add_payload_hdr
expand_payload-add_payload_hdr_example =
    expand_payload-add_payload_hdr (pos 3) sender receiver 100 8 (9 ∷ 9 ∷ []) true (omega arith)
      (omega arith) packet_taken
