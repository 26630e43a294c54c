-- ===== src/Xl2tpd/Avp/Texts.antt =====
-- xl2tpd/avp.c: the handlers of AVPs that hold a string, a challenge or a result. `handle_avps` calls
-- them with a length of at least 6, so the sizes below do not go under 0.
use zy_agf.Prelude.{
  ◌>>=◌, ℕ, ◌-◌, ◌/◌, ◌%◌, min, true, false, not, ◌&&◌, ◌||◌, Option, none, some, List, [], ◌∷◌,
  ◌==◌, ltb, leb, if◌then◌else◌, ℤ, pos, negsuc,
}
use zy_agf.Xl2tpd.Avp.{
  Env, Handler, ErrorMsg, blank, sent_by_peer, edit, edit_tunnel, wrong_length, word, bytes_at,
  alength, safe_copy, type_in, check_type_length, check_length_type, avp_hdr_size, max_strlen,
  sccrq, sccrp, scccn, stop_ccn, ocrq, ocrp, icrq, cdn,
}
use zy_agf.Xl2tpd.Avp.Fields.{edit_head}

-- `raw[0].s & 0x03FF`, less the header.
unfoldable pub value_size : List ℕ → Option ℕ
value_size raw = do len ← word raw 0; some (alength len - avp_hdr_size)

-- The string that a handler of a name or a number copies.
unfoldable pub value_string : List ℕ → Option (List ℕ)
value_string raw = do
  size ← value_size raw
  bytes ← bytes_at raw 3 (min size (max_strlen - 1))
  some (safe_copy bytes)

unfoldable pub hostname_avp : Handler
hostname_avp s c raw datalen =
    check_type_length s c (sccrp ∷ sccrq ∷ []) (leb 6 datalen)
      do name ← value_string raw; some (edit_tunnel s (λ t. record t { hostname = name }), false)

unfoldable pub vendor_avp : Handler
vendor_avp s c raw datalen =
    check_type_length s c (sccrp ∷ sccrq ∷ []) (leb 6 datalen)
      do name ← value_string raw; some (edit_tunnel s (λ t. record t { vendor = name }), false)

unfoldable pub dialing_number_avp : Handler
dialing_number_avp s c raw datalen =
    check_type_length s c (icrq ∷ []) (leb 6 datalen)
      do number ← value_string raw; edit_head s (λ k. record k { dialing = number })

unfoldable pub dialed_number_avp : Handler
dialed_number_avp s c raw datalen =
    check_type_length s c (ocrq ∷ icrq ∷ []) (leb 6 datalen)
      do number ← value_string raw; edit_head s (λ k. record k { dialed = number })

unfoldable pub sub_address_avp : Handler
sub_address_avp s c raw datalen =
    check_type_length s c (ocrp ∷ icrq ∷ []) (leb 6 datalen)
      do number ← value_string raw; edit_head s (λ k. record k { subaddy = number })

-- The vector is a pointer into the buffer: the model keeps the bytes that it points to.
unfoldable pub rand_vector_avp : Handler
rand_vector_avp s c raw datalen = do
  size ← value_size raw
  (if s.tunnel.sanity && ltb 1024 size then some (wrong_length s c, true) else do
    bytes ← bytes_at raw 3 size
    some (
      edit_tunnel s (λ t. record t { chal_us = record t.chal_us { vector = some bytes } }),
      false,
    ))

-- The old challenge is freed before the new one is allocated. `state` is STATE_CHALLENGED.
unfoldable pub challenge_avp : Env → Handler
challenge_avp env s c raw datalen = check_type_length s c (sccrp ∷ sccrq ∷ []) (leb 6 datalen) do
  size ← value_size raw
  (if not (env.malloc size)
      then some
          (edit_tunnel s (λ t. record t { chal_us = record t.chal_us { challenge = none } }), true)
      else do
        bytes ← bytes_at raw 3 size
        some (
          edit_tunnel s
              (λ t. record t { chal_us = record t.chal_us { challenge = some bytes; state = 1 } }),
          false,
        ))

unfoldable pub chalresp_avp : Handler
chalresp_avp s c raw datalen = check_type_length s c (sccrp ∷ scccn ∷ []) (leb 6 datalen) do
  size ← value_size raw
  (if not (size == 16) then some (s, true) else do
    bytes ← bytes_at raw 3 16
    some (edit_tunnel s (λ t. record t { reply = bytes }), false))

-- The endianness fix for a client that sends its codes in little-endian order.
unfoldable pub fix_endianness : ℕ → ℕ
fix_endianness code = if code % 256 == 0 && not (code / 256 == 0) then code / 256 else code

-- The error code is -1 where the AVP is too short for one.
unfoldable pub error_code : List ℕ → ℕ → Option ℤ
error_code raw datalen =
    if leb 10 datalen
    then (do code ← word raw 4; some (pos (fix_endianness code)))
    else some (negsuc 0)

unfoldable pub error_text : List ℕ → ℕ → Option ErrorMsg
error_text raw datalen =
    if ltb 10 datalen
    then (do
      bytes ← bytes_at raw 5 (min (datalen - 10) (max_strlen - 1))
      some (sent_by_peer (safe_copy bytes)))
    else some blank

unfoldable pub result_code_avp : Handler
result_code_avp s c raw datalen =
    let msgtype = (s.heap c).msgtype in
    check_length_type s c (cdn ∷ stop_ccn ∷ []) (leb 8 datalen) do
      code ← word raw 3
      let result = fix_endianness code
      (if type_in msgtype (stop_ccn ∷ []) && (ltb 7 result || ltb result 1)
          then some (s, false)
          else if type_in msgtype (cdn ∷ []) && (ltb 11 result || ltb result 1)
          then some (s, false)
          else do
            error ← error_code raw datalen
            text ← error_text raw datalen
            some (
              edit s c (λ k. record k { error = error; result = pos result; errormsg = text }),
              false,
            ))
