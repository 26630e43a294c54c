-- ===== src/Xl2tpd/Avp/Returns/Table.antt =====
-- xl2tpd/avp.c: when the handlers of the table `avps` return.
use zy_agf.Prelude.{ℕ, zero, suc, ◌≤◌, Option, none, some, List, [], ◌∷◌, ◌≡◌, get_or, length}
use zy_agf.Xl2tpd.Avp.{State, Env, Handler, word, alength}
use zy_agf.Xl2tpd.Avp.Loop.{avps, handler}
use zy_agf.Xl2tpd.Avp.Message.{message_type_avp}
use zy_agf.Xl2tpd.Avp.Fields.{
  ignore_avp, seq_reqd_avp, protocol_version_avp, framing_caps_avp, bearer_caps_avp,
  firmware_rev_avp, bearer_type_avp, frame_type_avp, assigned_tunnel_avp, assigned_call_avp,
  packet_delay_avp, call_serno_avp, rx_speed_avp, tx_speed_avp, call_physchan_avp,
  receive_window_size_avp,
}
use zy_agf.Xl2tpd.Avp.Texts.{
  hostname_avp, vendor_avp, dialing_number_avp, dialed_number_avp, sub_address_avp, rand_vector_avp,
  challenge_avp, chalresp_avp,
}
use zy_agf.Xl2tpd.Avp.Returns.{HasCall, Returns, Enough}
use zy_agf.Xl2tpd.Avp.Returns.Numbers.{
  ignore_avp-Returns, seq_reqd_avp-Returns, protocol_version_avp-Returns, framing_caps_avp-Returns,
  bearer_caps_avp-Returns, firmware_rev_avp-Returns, receive_window_size_avp-Returns,
  bearer_type_avp-Returns, frame_type_avp-Returns, packet_delay_avp-Returns, call_serno_avp-Returns,
  rx_speed_avp-Returns, tx_speed_avp-Returns, call_physchan_avp-Returns,
  assigned_tunnel_avp-Returns, assigned_call_avp-Returns,
}
use zy_agf.Xl2tpd.Avp.Returns.Strings.{
  hostname_avp-Returns, vendor_avp-Returns, dialing_number_avp-Returns, dialed_number_avp-Returns,
  sub_address_avp-Returns, rand_vector_avp-Returns, challenge_avp-Returns, chalresp_avp-Returns,
  result_code_avp-Returns, message_type_avp-Returns,
}

-- A handler returns on every AVP for which there are enough bytes.
abbrev pub ReturnsAlways : Option Handler → Type 0
ReturnsAlways none = Unit
ReturnsAlways (some handle) =
    (s : State) (c : ℕ) (raw : List ℕ) (w : ℕ)
    → HasCall s
    → Enough raw w
    → Returns (handle s c raw (alength w))

by_room :
    (handle : Handler)
    → ((s : State) (c : ℕ) (raw : List ℕ) (n : ℕ)
        → HasCall s
        → 10 ≤ length raw
        → Returns (handle s c raw n))
    → ReturnsAlways (some handle)
by_room handle k s c raw w h (e, p, q, f) = k s c raw (alength w) h e

by_size :
    (handle : Handler)
    → ((s : State) (c : ℕ) (raw : List ℕ) (n : ℕ)
        → HasCall s
        → 10 ≤ length raw
        → (w : ℕ) → word raw 0 ≡ some w
        → alength w ≤ length raw
        → 6 ≤ alength w
        → Returns (handle s c raw n))
    → ReturnsAlways (some handle)
by_size handle k s c raw w h (e, p, q, f) = k s c raw (alength w) h e w p q f

-- A table all of whose handlers return.
infixr 5 ◌▸◌
data AllReturn : List (Option Handler) → Type 0 where
  empty : AllReturn []
  ◌▸◌ :
      {o : Option Handler} {os : List (Option Handler)}
      → ReturnsAlways o
      → AllReturn os
      → AllReturn (o ∷ os)

avps-AllReturn : (env : Env) → AllReturn (avps env)
unfolding avps
avps-AllReturn env =
    by_room (message_type_avp env) (message_type_avp-Returns env)
    ▸ (λ s c raw w h (e, p, q, f). result_code_avp-Returns s c raw (alength w) h e w p q f q)
    ▸ by_room protocol_version_avp protocol_version_avp-Returns
    ▸ by_room framing_caps_avp framing_caps_avp-Returns
    ▸ by_room bearer_caps_avp bearer_caps_avp-Returns
    ▸ tt
    ▸ by_room firmware_rev_avp firmware_rev_avp-Returns
    ▸ by_size hostname_avp hostname_avp-Returns
    ▸ by_size vendor_avp vendor_avp-Returns
    ▸ by_room assigned_tunnel_avp assigned_tunnel_avp-Returns
    ▸ by_room receive_window_size_avp receive_window_size_avp-Returns
    ▸ by_size (challenge_avp env)
        (λ s c raw n h e w p q f. challenge_avp-Returns s c raw n h e w p q f env)
    ▸ tt
    ▸ by_size chalresp_avp chalresp_avp-Returns
    ▸ by_room assigned_call_avp assigned_call_avp-Returns
    ▸ by_room call_serno_avp call_serno_avp-Returns
    ▸ tt
    ▸ tt
    ▸ by_room bearer_type_avp bearer_type_avp-Returns
    ▸ by_room frame_type_avp frame_type_avp-Returns
    ▸ by_room packet_delay_avp packet_delay_avp-Returns
    ▸ by_size dialed_number_avp dialed_number_avp-Returns
    ▸ by_size dialing_number_avp dialing_number_avp-Returns
    ▸ by_size sub_address_avp sub_address_avp-Returns
    ▸ by_room tx_speed_avp tx_speed_avp-Returns
    ▸ by_room call_physchan_avp call_physchan_avp-Returns
    ▸ tt
    ▸ tt
    ▸ tt
    ▸ by_room ignore_avp ignore_avp-Returns
    ▸ by_room ignore_avp ignore_avp-Returns
    ▸ by_room ignore_avp ignore_avp-Returns
    ▸ by_room ignore_avp ignore_avp-Returns
    ▸ by_room ignore_avp ignore_avp-Returns
    ▸ tt
    ▸ by_room ignore_avp ignore_avp-Returns
    ▸ by_size rand_vector_avp rand_vector_avp-Returns
    ▸ tt
    ▸ by_room rx_speed_avp rx_speed_avp-Returns
    ▸ by_room seq_reqd_avp seq_reqd_avp-Returns
    ▸ empty

get_or-ReturnsAlways :
    {os : List (Option Handler)} (attr : ℕ) → AllReturn os → ReturnsAlways (get_or os attr none)
get_or-ReturnsAlways attr empty = tt
get_or-ReturnsAlways zero (r ▸ t) = r
get_or-ReturnsAlways (suc attr) (r ▸ t) = get_or-ReturnsAlways attr t

-- Every handler of the table returns.
pub handler-ReturnsAlways : (env : Env) (attr : ℕ) → ReturnsAlways (handler env attr)
unfolding handler
handler-ReturnsAlways env attr = get_or-ReturnsAlways attr (avps-AllReturn env)
