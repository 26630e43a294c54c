-- ===== src/Xl2tpd/Avp/Opening/RoundTrip.antt =====
-- xl2tpd: an SCCRQ as `control_finish` builds it with the functions of avpsend.c, read by `handle_avps`
-- of avp.c at the peer.
use zy_agf.Prelude.{
  ℕ, ◌+◌, ◌%◌, ◌<◌, Bool, true, false, ◌&&◌, ◌||◌, ◌==◌, some, List, [], ◌∷◌, ◌++◌, ◌≡◌, refl, ◌∙◌,
  ap, arith, length, drop, if◌then◌else◌, append_assoc, pos, length-append,
}
use zy_agf.Pppoe.Tags.Scan.{encode16}
use zy_agf.Xl2tpd.Avp.{State, Tunnel, Env, word, edit, edit-at, edit_tunnel, sccrq, c_string}
use zy_agf.Xl2tpd.Avp.Message.{known_message, sane_message, message_type_avp}
use zy_agf.Xl2tpd.Avp.Loop.{avps, handler, handle_avps}
use zy_agf.Xl2tpd.Avp.Send.{vendor_name, add_sccrq}
use zy_agf.Xl2tpd.Avp.Deliver.{Plain, length_word, encode, encode_all, deliver, size}
use zy_agf.Xl2tpd.Avp.Deliver.Run.{handle_avps-encode_all}
use zy_agf.Xl2tpd.Avp.Opening.{
  Asked, deliver-cons, one_word, low_word, text, IsName, protocol_lem, framing_lem, bearer_lem,
  firmware_lem, tunnel_lem, window_lem, hostname_lem, vendor_lem,
}
use zy_agf.Xl2tpd.Avp.Opening.Built.{plain_sccrq, opening, built}

-- What the peer's tunnel learns.
abbrev pub learns : ℕ → ℕ → List ℕ → ℕ → ℕ → Tunnel → Tunnel
learns fc bc name tid rws t = record t {
  fc = pos (fc % 65536);
  bc = pos (bc % 65536);
  firmware = pos 0x0690;
  hostname = name;
  vendor = vendor_name;
  tid = pos (tid % 65536);
  rws = pos (rws % 65536);
}

-- The call after the message type.
abbrev pub asks : State → ℕ → State
asks s c = edit s c (λ k. record k { msgtype = pos sccrq })

not_taken : {A : Type 0} (b : Bool) (x y : A) → (if b && false then x else y) ≡ y
not_taken true x y = refl
not_taken false x y = refl

encode_all-append :
    (avs : List Plain) (tail : List ℕ) → encode_all avs [] ++ tail ≡ encode_all avs tail
encode_all-append [] tail = refl
encode_all-append (b ∷ avs) tail =
    ap (λ r. encode16 (length_word b) (encode16 b.vendorid (encode16 b.attr r)))
      (append_assoc b.value (encode_all avs []) tail)
    ∙ ap (encode b) (encode_all-append avs tail)

vendor_name-IsName : IsName vendor_name
unfolding c_string
vendor_name-IsName = record { short = omega arith; whole = refl }

module _ (env : Env) (s : State) (c : ℕ) (on_self : (c == s.tunnel.self) ≡ true)
    (idle : (s.tunnel.state == 0 || s.tunnel.state == sccrq) ≡ true) where
  message_lem :
      (rest : List ℕ)
      → message_type_avp env s c (encode (one_word true 0 sccrq) rest) 8 ≡ some (asks s c, false)
  unfolding message_type_avp word known_message sane_message edit
  message_lem rest = rw (on_self, idle) (search not_taken)

  delivered :
      (fc bc : ℕ) (name : List ℕ) (tid rws : ℕ) (tail : List ℕ)
      → fc < 4
      → bc < 4
      → IsName name
      → deliver env c (plain_sccrq fc bc name tid rws) tail s
        ≡ some (edit_tunnel (asks s c) (learns fc bc name tid rws), false)
  unfolding handler avps deliver edit_tunnel
  delivered fc bc name tid rws tail hf hb k =
      let p = plain_sccrq fc bc name tid rws in
      let s1 = asks s c in
      let h1 : Asked s1 c = rw (edit-at s c (λ q. record q { msgtype = pos sccrq })) refl in
      let s2 = edit_tunnel s1 (λ t. record t { fc = pos (fc % 65536) }) in
      let s3 = edit_tunnel s2 (λ t. record t { bc = pos (bc % 65536) }) in
      let s4 = edit_tunnel s3 (λ t. record t { firmware = pos 0x0690 }) in
      let s5 = edit_tunnel s4 (λ t. record t { hostname = name }) in
      let s6 = edit_tunnel s5 (λ t. record t { vendor = vendor_name }) in
      let s7 = edit_tunnel s6 (λ t. record t { tid = pos (tid % 65536) }) in
      let s8 = edit_tunnel s7 (λ t. record t { rws = pos (rws % 65536) }) in
      deliver-cons env c (one_word true 0 sccrq) (drop 1 p) tail s s1 refl (message_lem _)
      ∙ deliver-cons env c (one_word true 2 0x100) (drop 2 p) tail s1 s1 refl
          (protocol_lem s1 c h1 0x100 _)
      ∙ deliver-cons env c (low_word 3 (fc % 65536)) (drop 3 p) tail s1 s2 refl
          (framing_lem s1 c h1 (fc % 65536) _ (omega (arith, hf)))
      ∙ deliver-cons env c (low_word 4 (bc % 65536)) (drop 4 p) tail s2 s3 refl
          (bearer_lem s2 c h1 (bc % 65536) _ (omega (arith, hb)))
      ∙ deliver-cons env c (one_word false 6 0x0690) (drop 5 p) tail s3 s4 refl
          (firmware_lem s3 c h1 0x0690 _)
      ∙ deliver-cons env c (text true 7 name) (drop 6 p) tail s4 s5 refl
          (hostname_lem s4 c h1 name _ k)
      ∙ deliver-cons env c (text false 8 vendor_name) (drop 7 p) tail s5 s6 refl
          (vendor_lem s5 c h1 vendor_name _ vendor_name-IsName)
      ∙ deliver-cons env c (one_word true 9 (tid % 65536)) (drop 8 p) tail s6 s7 refl
          (tunnel_lem s6 c h1 (tid % 65536) _)
      ∙ deliver-cons env c (one_word true 10 (rws % 65536)) [] tail s7 s8 refl
          (window_lem s7 c h1 (rws % 65536) _)

  -- An SCCRQ that `control_finish` builds behind the 12 bytes of the control header, without hidden AVPs
  -- and without a challenge, with capabilities below 4 and a host name of at most 119 bytes, none of
  -- them 0, is read by the peer's `handle_avps`, on a tunnel that has no state yet or has sent an SCCRQ
  -- itself: it returns 0, the call's message type is SCCRQ, and the tunnel has exactly the sender's
  -- capabilities, firmware, host name and vendor, and the sender's tunnel id and window modulo 65536.
  pub handle_avps-add_sccrq :
      (fc bc : ℕ) (name : List ℕ) (tid rws : ℕ) (header tail : List ℕ)
      → length header ≡ 12
      → fc < 4
      → bc < 4
      → IsName name
      → handle_avps env s c
          (add_sccrq (opening fc bc name tid rws) header ++ tail)
          (length (add_sccrq (opening fc bc name tid rws) header))
        ≡ some (edit_tunnel (asks s c) (learns fc bc name tid rws), false)
  handle_avps-add_sccrq fc bc name tid rws header tail h hf hb k =
      let short = k.short in
      let p = plain_sccrq fc bc name tid rws in
      let b = built fc bc name tid rws header k.short in
      let len : length (header ++ encode_all p []) ≡ 12 + size p =
        length-append header (encode_all p []) ∙ ap (λ n. n + size p) h in
      let whole : (header ++ encode_all p []) ++ tail ≡ header ++ encode_all p tail =
        append_assoc header (encode_all p []) tail
        ∙ ap (λ l. header ++ l) (encode_all-append p tail) in
      rw (b, len, whole)
        (handle_avps-encode_all env s c header p tail h (omega arith) refl
          ∙ delivered fc bc name tid rws tail hf hb k)
