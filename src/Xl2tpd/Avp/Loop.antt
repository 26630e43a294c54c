-- ===== src/Xl2tpd/Avp/Loop.antt =====
-- xl2tpd/avp.c: the table `avps` and `handle_avps`. The length left in the packet is a natural number:
-- the loop ends with -EINVAL as soon as the code's signed one falls under 0.
use zy_agf.Prelude.{
  ◌>>=◌, ℕ, zero, suc, ◌+◌, ◌-◌, ◌/◌, ◌%◌, Bool, true, false, not, ◌&&◌, ◌||◌, Option, none, some,
  List, [], ◌∷◌, ◌==◌, ltb, if◌then◌else◌, drop, get_or,
}
use zy_agf.Xl2tpd.Avp.{State, Env, Ran, Handler, edit, set_error, word, alength, avp_hdr_size}
use zy_agf.Xl2tpd.Avp.Message.{message_type_avp}
use zy_agf.Xl2tpd.Avp.Fields.{
  ignore_avp, seq_reqd_avp, protocol_version_avp, framing_caps_avp, bearer_caps_avp,
  firmware_rev_avp, bearer_type_avp, frame_type_avp, assigned_tunnel_avp, assigned_call_avp,
  packet_delay_avp, call_serno_avp, rx_speed_avp, tx_speed_avp, call_physchan_avp,
  receive_window_size_avp,
}
use zy_agf.Xl2tpd.Avp.Texts.{
  hostname_avp, vendor_avp, dialing_number_avp, dialed_number_avp, sub_address_avp, rand_vector_avp,
  challenge_avp, chalresp_avp, result_code_avp,
}
use zy_agf.Xl2tpd.Avp.Hidden.{decrypt_avp}

abbrev pub avp_max : ℕ
avp_max = 39

-- `AMBIT`, `AHBIT` and `AZBITS`
abbrev pub ambit : ℕ → Bool
ambit len = len / 0x8000 % 2 == 1

abbrev pub ahbit : ℕ → Bool
ahbit len = len / 0x4000 % 2 == 1

abbrev pub azbits : ℕ → Bool
azbits len = not (len / 0x400 % 16 == 0)

-- The handlers of the table `avps`, in its order; none is a null entry.
unfoldable pub avps : Env → List (Option Handler)
avps env =
    some (message_type_avp env)
    ∷ some result_code_avp
    ∷ some protocol_version_avp
    ∷ some framing_caps_avp
    ∷ some bearer_caps_avp
    ∷ none
    ∷ some firmware_rev_avp
    ∷ some hostname_avp
    ∷ some vendor_avp
    ∷ some assigned_tunnel_avp
    ∷ some receive_window_size_avp
    ∷ some (challenge_avp env)
    ∷ none
    ∷ some chalresp_avp
    ∷ some assigned_call_avp
    ∷ some call_serno_avp
    ∷ none
    ∷ none
    ∷ some bearer_type_avp
    ∷ some frame_type_avp
    ∷ some packet_delay_avp
    ∷ some dialed_number_avp
    ∷ some dialing_number_avp
    ∷ some sub_address_avp
    ∷ some tx_speed_avp
    ∷ some call_physchan_avp
    ∷ none
    ∷ none
    ∷ none
    ∷ some ignore_avp
    ∷ some ignore_avp
    ∷ some ignore_avp
    ∷ some ignore_avp
    ∷ some ignore_avp
    ∷ none
    ∷ some ignore_avp
    ∷ some rand_vector_avp
    ∷ none
    ∷ some rx_speed_avp
    ∷ some seq_reqd_avp
    ∷ []

unfoldable pub handler : Env → ℕ → Option Handler
handler env attr = get_or (avps env) attr none

-- What one pass of the loop does: return -EINVAL, or go to `next` and skip bytes.
pub data Pass : Type 0 where
  refuse : State → Pass
  next : State → ℕ → Pass

-- A failure that only a mandatory AVP makes fatal.
unfoldable pub fail_if_mandatory : State → ℕ → ℕ → ℕ → ℕ → Pass
fail_if_mandatory s c w error skip = if ambit w then refuse (set_error s c error) else next s skip

-- What follows the return of a handler.
unfoldable pub handled : ℕ → ℕ → ℕ → State × Bool → Pass
handled c w skip (s, bad) =
    if bad && ambit w then refuse (edit s c (λ k. record k { needclose = true })) else next s skip

-- The call of the handler that the table has, if any, for an AVP in clear with the length word `w`.
unfoldable pub call_with : State → ℕ → List ℕ → ℕ → ℕ → Option Handler → Option Pass
call_with s c raw w skip none = some (fail_if_mandatory s c w 6 skip)
call_with s c raw w skip (some handle) = do
  ran ← handle s c raw (alength w)
  some (handled c w skip ran)

unfoldable pub call_handler : Env → State → ℕ → List ℕ → ℕ → ℕ → ℕ → Option Pass
call_handler env s c raw w attr skip = call_with s c raw w skip (handler env attr)

-- What follows `decrypt_avp`. Two bytes are skipped at once, and `hidlen`, the old length word less
-- two, says how many are skipped at `next`.
unfoldable pub unhidden : Env → State → ℕ → ℕ → ℕ → Option (List ℕ) → Option Pass
unhidden env s c w attr none = some (fail_if_mandatory s c w 6 (alength w))
unhidden env s c w attr (some raw) = do
  w' ← word raw 0
  let hidlen = w - 2
  call_handler env s c raw w' attr
      (2 + (if alength hidlen == 0 then alength w' else alength hidlen))

unfoldable pub unhide : Env → State → ℕ → List ℕ → ℕ → ℕ → Option Pass
unhide env s c raw w attr = do
  clear ← decrypt_avp env s.tunnel.chal_us raw
  unhidden env s c w attr clear

-- One pass, with `len` bytes left; `first` is `firstavp`.
unfoldable pub avp_step : Env → State → ℕ → List ℕ → ℕ → Bool → Option Pass
avp_step env s c raw len first = do
  w ← word raw 0
  attr ← word raw 2
  (if ltb avp_max attr
      then some (fail_if_mandatory s c w 6 (alength w))
      else if ltb len (alength w)
      then some (refuse (set_error s c 2))
      else if not (attr == 0) && first
      then some (refuse (set_error s c 6))
      else if ltb (alength w) avp_hdr_size
      then some (refuse (set_error s c 2))
      else if azbits w
      then some (fail_if_mandatory s c w 3 (alength w))
      else if ahbit w
      then unhide env s c raw w attr
      else call_handler env s c raw w attr (alength w))

-- The end of a pass: a length of 0 leaves the loop, and a skip behind the packet ends it.
unfoldable pub go_on : ℕ → (State → ℕ → Ran) → Pass → Ran
go_on len again (refuse s) = some (s, true)
go_on len again (next s skip) = if skip == 0 || ltb len skip then some (s, true) else again s skip

-- The loop. What `decrypt_avp` writes lies inside its AVP, so the next one is read from `raw`.
unfoldable pub avps_from : Env → ℕ → State → ℕ → List ℕ → ℕ → Bool → Ran
avps_from env zero s c raw len first = none
avps_from env (suc fuel) s c raw len first = if len == 0 then some (s, false) else do
  step ← avp_step env s c raw len first
  go_on len (λ s' skip. avps_from env fuel s' c (drop skip raw) (len - skip) false) step

-- `raw` is what lies from `buf->start` on, `buf_len` is `buf->len`. Every pass skips a byte or more, so
-- the fuel is enough.
unfoldable pub handle_avps : Env → State → ℕ → List ℕ → ℕ → Ran
handle_avps env s c raw buf_len =
    if ltb buf_len 12
    then some (s, true)
    else avps_from env (suc (buf_len - 12)) s c (drop 12 raw) (buf_len - 12) true
