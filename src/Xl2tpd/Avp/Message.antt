-- ===== src/Xl2tpd/Avp/Message.antt =====
-- xl2tpd/avp.c: `message_type_avp`, and `new_call` of call.c.
use zy_agf.Prelude.{
  ◌>>=◌, ℕ, ◌+◌, ◌%◌, Bool, true, false, not, ◌&&◌, ◌||◌, Option, none, some, [], ◌∷◌, ◌==◌, ltb,
  if◌then◌else◌, pos, negsuc,
}
use zy_agf.Pppoe.Relay.Table.{elem}
use zy_agf.Xl2tpd.Avp.{
  State, Call, Env, Ran, Handler, blank, edit, edit_tunnel, wrong_length, word, sccrq, sccrp, scccn,
  stop_ccn, hello, ocrq, ocrp, occn, icrq, icrp, iccn, cdn, sli,
}

-- The fields that `new_call` sets, as the model has them; the rest of the structure is 0.
abbrev pub fresh_call : ℕ → Call
fresh_call ourcid = record {
  state = 0;
  msgtype = pos 0;
  next = none;
  ourcid = ourcid;
  cid = pos 0;
  qcid = negsuc 0;
  seq_reqd = false;
  frame = 0;
  bearer = negsuc 0;
  serno = 0;
  txspeed = 0;
  rxspeed = 0;
  ppd = 0;
  physchan = 0xffff_ffff;
  dialed = [];
  dialing = [];
  subaddy = [];
  needclose = false;
  error = negsuc 0;
  result = negsuc 0;
  errormsg = blank;
}

-- The state with the new call in it and its address; the null pointer where `calloc` fails.
unfoldable pub new_call : Env → State → Option (ℕ × State)
new_call env s = do p ← env.calloc s; some (p, edit s p (λ k. fresh_call (env.entropy % 65536)))

-- `MAX_MSG` and the entries of `msgtypes` that are not null.
unfoldable pub known_message : ℕ → Bool
known_message n = ltb n 17 && not (elem n (0 ∷ 5 ∷ 13 ∷ []))

-- The SANITY block: whether the message may come, on the tunnel itself or on a call, in the state of
-- the tunnel and in the state of the call.
unfoldable pub sane_message : Bool → ℕ → ℕ → ℕ → Bool
sane_message on_self tunnel_state call_state msgtype =
    if not on_self && ltb msgtype hello
    then false
    else if msgtype == sccrq
    then tunnel_state == 0 || tunnel_state == sccrq
    else if msgtype == sccrp
    then tunnel_state == sccrq
    else if msgtype == scccn
    then tunnel_state == sccrp
    else if msgtype == icrq
    then tunnel_state == scccn && on_self
    else if msgtype == icrp
    then tunnel_state == scccn && call_state == icrq
    else if msgtype == iccn
    then call_state == icrp
    else if msgtype == sli
    then call_state == iccn
    else if msgtype == ocrp
    then tunnel_state == scccn && call_state == ocrq
    else if msgtype == occn
    then call_state == ocrq
    else elem msgtype (stop_ccn ∷ cdn ∷ hello ∷ [])

-- What `new_call` gave, put in front of the tunnel's calls.
unfoldable pub link_call : State → Option (ℕ × State) → Ran
link_call s none = some (s, true)
link_call s (some (p, s1)) =
    let s2 = edit s1 p (λ k. record k { next = s1.tunnel.call_head }) in
    some (edit_tunnel s2 (λ t. record t { call_head = some p; count = t.count + 1 }), false)

-- The new call of an ICRQ.
unfoldable pub incoming_call : Env → State → Ran
incoming_call env s = link_call s (new_call env s)

unfoldable pub message_type_avp : Env → Handler
message_type_avp env s0 c raw datalen = do
  msgtype ← word raw 3
  let s = edit s0 c (λ k. record k { msgtype = pos msgtype })
  (if not (datalen == 8)
      then some (wrong_length s c, true)
      else if not (known_message msgtype)
      then some (s, true)
      else if s.tunnel.sanity
          && not (sane_message (c == s.tunnel.self) s.tunnel.state (s.heap c).state msgtype)
      then some (s, true)
      else if msgtype == icrq
      then incoming_call env s
      else some (s, false))
