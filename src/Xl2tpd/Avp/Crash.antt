-- ===== src/Xl2tpd/Avp/Crash.antt =====
-- xl2tpd/avp.c: `message_type_avp`, `bearer_type_avp` and the pointer `t->call_head`, on a message for an
-- OCRQ whose message type AVP is not mandatory.
use zy_agf.Prelude.{
  ℕ, Bool, true, false, ◌==◌, none, some, List, [], ◌∷◌, ◌++◌, ◌≡◌, refl, ◌∙◌, arith, length, pos,
}
use zy_agf.Xl2tpd.Avp.{State, Env, word, edit, edit-at, ocrq, type_in, check_type_length}
use zy_agf.Xl2tpd.Avp.Message.{known_message, sane_message, message_type_avp}
use zy_agf.Xl2tpd.Avp.Fields.{bearer_type_avp, edit_head}
use zy_agf.Xl2tpd.Avp.Loop.{avps, handler, handle_avps}
use zy_agf.Xl2tpd.Avp.Deliver.{Plain, encode, encode_all, deliver_one, deliver}
use zy_agf.Xl2tpd.Avp.Deliver.Run.{handle_avps-encode_all}

-- A message type AVP that is not mandatory, for OCRQ.
abbrev pub lax_ocrq : Plain
lax_ocrq = record { mandatory = false; vendorid = 0; attr = 0; value = 0 ∷ 7 ∷ [] }

-- A bearer type AVP.
abbrev pub bearer_type : Bool → ℕ → ℕ → ℕ → ℕ → Plain
bearer_type m x0 x1 x2 x3 = record {
  mandatory = m;
  vendorid = 0;
  attr = 18;
  value = x0 ∷ x1 ∷ x2 ∷ x3 ∷ [];
}

-- The state after the message type.
asked : State → ℕ → State
asked s c = edit s c (λ k. record k { msgtype = pos ocrq })

sane_message-ocrq : (b : Bool) (ts cs : ℕ) → sane_message b ts cs ocrq ≡ false
unfolding sane_message
sane_message-ocrq b ts cs = ground arith

asked-sane : (s : State) (c : ℕ) → s.tunnel.sanity ≡ true → (asked s c).tunnel.sanity ≡ true
unfolding asked edit
asked-sane s c h = h

asked-alone : (s : State) (c : ℕ) → s.tunnel.call_head ≡ none → (asked s c).tunnel.call_head ≡ none
unfolding asked edit
asked-alone s c h = h

asked-msgtype : (s : State) (c : ℕ) → ((asked s c).heap c).msgtype ≡ pos ocrq
unfolding asked
asked-msgtype s c = rw (edit-at s c (λ k. record k { msgtype = pos ocrq })) refl

module _ (env : Env) (s : State) (c : ℕ) (sane : s.tunnel.sanity ≡ true) where
  message_type_avp-ocrq :
      (rest : List ℕ) → message_type_avp env s c (encode lax_ocrq rest) 8 ≡ some (asked s c, true)
  unfolding message_type_avp word known_message asked
  message_type_avp-ocrq rest =
      let q = asked-sane s c sane in
      let no_way =
        sane_message-ocrq (c == (asked s c).tunnel.self) (asked s c).tunnel.state
          ((asked s c).heap c).state in
      rw (q, no_way) refl

  bearer_type_avp-faults :
      (m : Bool) (x0 x1 x2 x3 : ℕ) (rest : List ℕ)
      → s.tunnel.call_head ≡ none
      → bearer_type_avp (asked s c) c (encode (bearer_type m x0 x1 x2 x3) rest) 10 ≡ none
  unfolding bearer_type_avp word edit_head check_type_length type_in
  bearer_type_avp-faults m x0 x1 x2 x3 rest alone =
      rw (asked-sane s c sane, asked-msgtype s c, asked-alone s c alone) refl

  -- With SANITY, on a tunnel without calls, the message whose AVPs are an OCRQ type that is not
  -- mandatory and a bearer type makes the code write through the null pointer `t->call_head`, whatever
  -- the state of the tunnel, the sender of the header and the bearer.
  pub handle_avps_faults :
      (m : Bool) (x0 x1 x2 x3 : ℕ) (header rest : List ℕ)
      → s.tunnel.call_head ≡ none
      → length header ≡ 12
      → handle_avps env s c
          (header ++ encode_all (lax_ocrq ∷ bearer_type m x0 x1 x2 x3 ∷ []) rest)
          30
        ≡ none
  unfolding deliver deliver_one handler avps
  handle_avps_faults m x0 x1 x2 x3 header rest alone h =
      handle_avps-encode_all env s c header (lax_ocrq ∷ bearer_type m x0 x1 x2 x3 ∷ []) rest h
        (omega arith) refl
      ∙ rw
          (
            message_type_avp-ocrq (encode_all (bearer_type m x0 x1 x2 x3 ∷ []) rest),
            bearer_type_avp-faults m x0 x1 x2 x3 rest alone,
          )
          refl
