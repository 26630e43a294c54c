-- ===== src/Xl2tpd/Avp/Fields.antt =====
-- xl2tpd/avp.c: the handlers of AVPs that hold a number, and `ignore_avp`.
use zy_agf.Prelude.{
  ◌>>=◌, List, ℕ, ◌+◌, ◌*◌, ◌%◌, true, false, not, ◌&&◌, Option, some, [], ◌∷◌, ◌==◌, if◌then◌else◌,
  pos,
}
use zy_agf.Xl2tpd.Avp.{
  State, Call, Ran, Handler, edit, edit_tunnel, wrong_length, word, type_in, check_type_length,
  check_length_type, sccrq, sccrp, stop_ccn, ocrq, ocrp, occn, icrq, icrp, iccn, cdn,
}

unfoldable pub ignore_avp : Handler
ignore_avp s c raw datalen = some (s, false)

-- A write through `t->call_head`.
unfoldable pub edit_head : State → (Call → Call) → Ran
edit_head s f = do h ← s.tunnel.call_head; some (edit s h f, false)

-- `raw[3]` and `raw[4]` as one 32-bit number.
unfoldable pub long_word : List ℕ → Option ℕ
long_word raw = do hi ← word raw 3; lo ← word raw 4; some (hi * 65536 + lo)

unfoldable pub seq_reqd_avp : Handler
seq_reqd_avp s c raw datalen =
    if s.tunnel.sanity && not (datalen == 6)
    then some (wrong_length s c, true)
    else if s.tunnel.sanity && not (type_in (s.heap c).msgtype (iccn ∷ []))
    then some (s, true)
    else some (edit s c (λ k. record k { seq_reqd = true }), false)

-- The version is read for the log only.
unfoldable pub protocol_version_avp : Handler
protocol_version_avp s c raw datalen =
    check_length_type s c (sccrp ∷ sccrq ∷ []) (datalen == 8) do ver ← word raw 3; some (s, false)

unfoldable pub framing_caps_avp : Handler
framing_caps_avp s c raw datalen =
    check_type_length s c (sccrp ∷ sccrq ∷ []) (datalen == 10)
      do caps ← word raw 4; some (edit_tunnel s (λ t. record t { fc = pos (caps % 4) }), false)

unfoldable pub bearer_caps_avp : Handler
bearer_caps_avp s c raw datalen =
    check_type_length s c (sccrp ∷ sccrq ∷ []) (datalen == 10)
      do caps ← word raw 4; some (edit_tunnel s (λ t. record t { bc = pos (caps % 4) }), false)

unfoldable pub firmware_rev_avp : Handler
firmware_rev_avp s c raw datalen =
    check_type_length s c (sccrp ∷ sccrq ∷ []) (datalen == 8)
      do ver ← word raw 3; some (edit_tunnel s (λ t. record t { firmware = pos ver }), false)

unfoldable pub bearer_type_avp : Handler
bearer_type_avp s c raw datalen =
    check_type_length s c (icrq ∷ ocrq ∷ []) (datalen == 10)
      do b ← word raw 4; edit_head s (λ k. record k { bearer = pos b })

unfoldable pub frame_type_avp : Handler
frame_type_avp s c raw datalen =
    check_type_length s c (iccn ∷ ocrq ∷ occn ∷ []) (datalen == 10)
      do b ← word raw 4; some (edit s c (λ k. record k { frame = b }), false)

unfoldable pub assigned_tunnel_avp : Handler
assigned_tunnel_avp s c raw datalen =
    check_type_length s c (sccrp ∷ sccrq ∷ stop_ccn ∷ []) (datalen == 8) do
      id ← word raw 3
      some (
        edit_tunnel s (λ t.
            if type_in (s.heap c).msgtype (stop_ccn ∷ [])
            then record t { qtid = pos id }
            else record t { tid = pos id }),
        false,
      )

unfoldable pub assigned_call_avp : Handler
assigned_call_avp s c raw datalen =
    let msgtype = (s.heap c).msgtype in
    check_type_length s c (cdn ∷ icrp ∷ icrq ∷ ocrp ∷ []) (datalen == 8) do
      id ← word raw 3
      (if type_in msgtype (cdn ∷ [])
          then some (edit s c (λ k. record k { qcid = pos id }), false)
          else if type_in msgtype (icrq ∷ [])
          then edit_head s (λ k. record k { cid = pos id })
          else if type_in msgtype (icrp ∷ ocrp ∷ [])
          then some (edit s c (λ k. record k { cid = pos id }), false)
          else some (s, false))

unfoldable pub packet_delay_avp : Handler
packet_delay_avp s c raw datalen =
    check_type_length s c (icrp ∷ ocrq ∷ iccn ∷ ocrp ∷ occn ∷ []) (datalen == 8)
      do delay ← word raw 3; some (edit s c (λ k. record k { ppd = delay }), false)

-- A length other than 10 is accepted.
unfoldable pub call_serno_avp : Handler
call_serno_avp s c raw datalen =
    check_type_length s c (icrq ∷ ocrq ∷ []) true
      do number ← long_word raw; edit_head s (λ k. record k { serno = number })

unfoldable pub rx_speed_avp : Handler
rx_speed_avp s c raw datalen =
    check_type_length s c (iccn ∷ occn ∷ ocrp ∷ []) (datalen == 10)
      do speed ← long_word raw; some (edit s c (λ k. record k { rxspeed = speed }), false)

unfoldable pub tx_speed_avp : Handler
tx_speed_avp s c raw datalen =
    check_type_length s c (iccn ∷ occn ∷ ocrp ∷ []) (datalen == 10)
      do speed ← long_word raw; some (edit s c (λ k. record k { txspeed = speed }), false)

unfoldable pub call_physchan_avp : Handler
call_physchan_avp s c raw datalen =
    check_type_length s c (icrq ∷ ocrq ∷ ocrp ∷ occn ∷ []) (datalen == 10)
      do channel ← long_word raw; edit_head s (λ k. record k { physchan = channel })

unfoldable pub receive_window_size_avp : Handler
receive_window_size_avp s c raw datalen =
    check_type_length s c (sccrp ∷ sccrq ∷ ocrp ∷ occn ∷ stop_ccn ∷ []) (datalen == 8)
      do rws ← word raw 3; some (edit_tunnel s (λ t. record t { rws = pos rws }), false)
