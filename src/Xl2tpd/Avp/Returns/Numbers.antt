-- ===== src/Xl2tpd/Avp/Returns/Numbers.antt =====
-- xl2tpd/avp.c: when the handlers of numbers return.
use zy_agf.Prelude.{ℕ, ◌≤◌, Bool, true, false, List, ◌≡◌, refl, arith, length, if◌then◌else◌}
use zy_agf.Xl2tpd.Avp.{State, Tunnel, word}
use zy_agf.Xl2tpd.Avp.Reads.{word-inside}
use zy_agf.Xl2tpd.Avp.Fields.{
  ignore_avp, long_word, seq_reqd_avp, protocol_version_avp, framing_caps_avp, bearer_caps_avp,
  firmware_rev_avp, bearer_type_avp, frame_type_avp, assigned_tunnel_avp, assigned_call_avp,
  packet_delay_avp, call_serno_avp, rx_speed_avp, tx_speed_avp, call_physchan_avp,
  receive_window_size_avp,
}
use zy_agf.Xl2tpd.Avp.Returns.{
  HasCall, Returns, Given, Returns-if, Returns-bind, stop, Returns-edit, Returns-wrong,
  Returns-tunnel, Returns-type_length, Returns-length_type, Returns-head,
}

module _ (s : State) (c : ℕ) (raw : List ℕ) (n : ℕ) (h : HasCall s) (room : 10 ≤ length raw) where
  word3 : Given (word raw 3)
  word3 = word-inside raw 3 (omega arith)

  word4 : Given (word raw 4)
  word4 = word-inside raw 4 (omega arith)

  long_word-Given : Given (long_word raw)
  unfolding long_word
  long_word-Given = let (a, p) = word3 in let (b, q) = word4 in rw (p, q) (_, refl)

  pub ignore_avp-Returns : Returns (ignore_avp s c raw n)
  unfolding ignore_avp
  ignore_avp-Returns = stop s false h

  pub seq_reqd_avp-Returns : Returns (seq_reqd_avp s c raw n)
  unfolding seq_reqd_avp
  seq_reqd_avp-Returns =
      Returns-if _ (Returns-wrong s c h) (Returns-if _ (stop s true h) (Returns-edit s c _ false h))

  pub protocol_version_avp-Returns : Returns (protocol_version_avp s c raw n)
  unfolding protocol_version_avp
  protocol_version_avp-Returns =
      Returns-length_type s c _ _ h (Returns-bind _ word3 (λ v. stop s false h))

  pub framing_caps_avp-Returns : Returns (framing_caps_avp s c raw n)
  unfolding framing_caps_avp
  framing_caps_avp-Returns =
      Returns-type_length s c _ _ h (Returns-bind _ word4 (λ v. Returns-tunnel s _ false h refl))

  pub bearer_caps_avp-Returns : Returns (bearer_caps_avp s c raw n)
  unfolding bearer_caps_avp
  bearer_caps_avp-Returns =
      Returns-type_length s c _ _ h (Returns-bind _ word4 (λ v. Returns-tunnel s _ false h refl))

  pub firmware_rev_avp-Returns : Returns (firmware_rev_avp s c raw n)
  unfolding firmware_rev_avp
  firmware_rev_avp-Returns =
      Returns-type_length s c _ _ h (Returns-bind _ word3 (λ v. Returns-tunnel s _ false h refl))

  pub receive_window_size_avp-Returns : Returns (receive_window_size_avp s c raw n)
  unfolding receive_window_size_avp
  receive_window_size_avp-Returns =
      Returns-type_length s c _ _ h (Returns-bind _ word3 (λ v. Returns-tunnel s _ false h refl))

  pub bearer_type_avp-Returns : Returns (bearer_type_avp s c raw n)
  unfolding bearer_type_avp
  bearer_type_avp-Returns =
      Returns-type_length s c _ _ h (Returns-bind _ word4 (λ v. Returns-head s _ h))

  pub frame_type_avp-Returns : Returns (frame_type_avp s c raw n)
  unfolding frame_type_avp
  frame_type_avp-Returns =
      Returns-type_length s c _ _ h (Returns-bind _ word4 (λ v. Returns-edit s c _ false h))

  pub packet_delay_avp-Returns : Returns (packet_delay_avp s c raw n)
  unfolding packet_delay_avp
  packet_delay_avp-Returns =
      Returns-type_length s c _ _ h (Returns-bind _ word3 (λ v. Returns-edit s c _ false h))

  pub call_serno_avp-Returns : Returns (call_serno_avp s c raw n)
  unfolding call_serno_avp
  call_serno_avp-Returns =
      Returns-type_length s c _ _ h (Returns-bind _ long_word-Given (λ v. Returns-head s _ h))

  pub rx_speed_avp-Returns : Returns (rx_speed_avp s c raw n)
  unfolding rx_speed_avp
  rx_speed_avp-Returns =
      Returns-type_length s c _ _ h
        (Returns-bind _ long_word-Given (λ v. Returns-edit s c _ false h))

  pub tx_speed_avp-Returns : Returns (tx_speed_avp s c raw n)
  unfolding tx_speed_avp
  tx_speed_avp-Returns =
      Returns-type_length s c _ _ h
        (Returns-bind _ long_word-Given (λ v. Returns-edit s c _ false h))

  pub call_physchan_avp-Returns : Returns (call_physchan_avp s c raw n)
  unfolding call_physchan_avp
  call_physchan_avp-Returns =
      Returns-type_length s c _ _ h (Returns-bind _ long_word-Given (λ v. Returns-head s _ h))

  pub assigned_tunnel_avp-Returns : Returns (assigned_tunnel_avp s c raw n)
  unfolding assigned_tunnel_avp
  assigned_tunnel_avp-Returns =
      Returns-type_length s c _ _ h
        (Returns-bind _ word3 (λ v. Returns-tunnel s _ false h (search kept)))
    where
      kept :
          (b : Bool) (t t' : Tunnel)
          → t.call_head ≡ t'.call_head
          → (if b then t else t').call_head ≡ t'.call_head
      kept true t t' e = e
      kept false t t' e = refl

  pub assigned_call_avp-Returns : Returns (assigned_call_avp s c raw n)
  unfolding assigned_call_avp
  assigned_call_avp-Returns =
      Returns-type_length s c _ _ h
        (Returns-bind _ word3 (λ v. search (Returns-if, Returns-edit, Returns-head, stop)))
