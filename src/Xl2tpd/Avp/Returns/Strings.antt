-- ===== src/Xl2tpd/Avp/Returns/Strings.antt =====
-- xl2tpd/avp.c: the handlers of strings, challenges and results, and `message_type_avp`, and when
-- they return.
use zy_agf.Prelude.{
  ==_iff, ◌>>=◌, ℕ, ◌+◌, ◌-◌, ◌*◌, ◌≤◌, min, Bool, true, false, not, Option, none, some, List, ◌≡◌,
  refl, arith, ltb, leb, ◌==◌, length, if◌then◌else◌, pos,
}
use zy_agf.Xl2tpd.Avp.{State, Env, word, bytes_at, alength, edit, edit_tunnel}
use zy_agf.Xl2tpd.Avp.Reads.{word-inside, bytes_at-inside}
use zy_agf.Xl2tpd.Avp.Message.{message_type_avp, incoming_call, link_call, new_call}
use zy_agf.Xl2tpd.Avp.Texts.{
  value_size, value_string, hostname_avp, vendor_avp, dialing_number_avp, dialed_number_avp,
  sub_address_avp, rand_vector_avp, challenge_avp, chalresp_avp, result_code_avp, error_code,
  error_text,
}
use zy_agf.Xl2tpd.Avp.Returns.{
  HasCall, Returns, Given, Returns-if, Returns-bind, stop, edit-HasCall, Returns-edit,
  Returns-wrong, Returns-tunnel, Returns-type_length, Returns-length_type, Returns-head,
}

incoming_call-Returns : (env : Env) (s : State) → HasCall s → Returns (incoming_call env s)
unfolding incoming_call link_call edit_tunnel
incoming_call-Returns env s h = link_call-Returns (new_call env s)
  where
    link_call-Returns : (o : Option (ℕ × State)) → Returns (link_call s o)
    link_call-Returns none = stop s true h
    link_call-Returns (some (p, s1)) = (_, false, refl, (p, refl))

Given-if : {A : Type 0} (b : Bool) {x y : Option A} → Given x → Given y → Given (if b then x else y)
Given-if true p q = p
Given-if false p q = q

module _ (s : State) (c : ℕ) (raw : List ℕ) (n : ℕ) (h : HasCall s) (room : 10 ≤ length raw) (w : ℕ)
    (len : word raw 0 ≡ some w) (fits : alength w ≤ length raw) (least : 6 ≤ alength w) where
  size-eq : value_size raw ≡ some (alength w - 6)
  unfolding value_size
  size-eq = rw len refl

  size-Given : Given (value_size raw)
  size-Given = (_, size-eq)

  copied : (k m : ℕ) → 2 * k + m ≤ length raw → Given (bytes_at raw k m)
  copied k m e = (_, bytes_at-inside raw k m e)

  string-Given : Given (value_string raw)
  unfolding value_string
  string-Given =
      rw size-eq (let (b, e) = copied 3 (min (alength w - 6) 119) (omega arith) in rw e (_, refl))

  pub hostname_avp-Returns : Returns (hostname_avp s c raw n)
  unfolding hostname_avp
  hostname_avp-Returns =
      Returns-type_length s c _ _ h
        (Returns-bind _ string-Given (λ v. Returns-tunnel s _ false h refl))

  pub vendor_avp-Returns : Returns (vendor_avp s c raw n)
  unfolding vendor_avp
  vendor_avp-Returns =
      Returns-type_length s c _ _ h
        (Returns-bind _ string-Given (λ v. Returns-tunnel s _ false h refl))

  pub dialing_number_avp-Returns : Returns (dialing_number_avp s c raw n)
  unfolding dialing_number_avp
  dialing_number_avp-Returns =
      Returns-type_length s c _ _ h (Returns-bind _ string-Given (λ v. Returns-head s _ h))

  pub dialed_number_avp-Returns : Returns (dialed_number_avp s c raw n)
  unfolding dialed_number_avp
  dialed_number_avp-Returns =
      Returns-type_length s c _ _ h (Returns-bind _ string-Given (λ v. Returns-head s _ h))

  pub sub_address_avp-Returns : Returns (sub_address_avp s c raw n)
  unfolding sub_address_avp
  sub_address_avp-Returns =
      Returns-type_length s c _ _ h (Returns-bind _ string-Given (λ v. Returns-head s _ h))

  pub rand_vector_avp-Returns : Returns (rand_vector_avp s c raw n)
  unfolding rand_vector_avp
  rand_vector_avp-Returns = rw size-eq (
      Returns-if _ (Returns-wrong s c h) (
        Returns-bind _ (copied 3 (alength w - 6) (omega arith))
          (λ b. Returns-tunnel s _ false h refl)))

  pub challenge_avp-Returns : (env : Env) → Returns (challenge_avp env s c raw n)
  unfolding challenge_avp
  challenge_avp-Returns env = Returns-type_length s c _ _ h (
      rw size-eq (
        Returns-if _ (Returns-tunnel s _ true h refl) (
          Returns-bind _ (copied 3 (alength w - 6) (omega arith))
            (λ b. Returns-tunnel s _ false h refl))))

  pub chalresp_avp-Returns : Returns (chalresp_avp s c raw n)
  unfolding chalresp_avp
  chalresp_avp-Returns =
      Returns-type_length s c _ _ h
        (rw size-eq (answered (alength w - 6 == 16) (λ e. copied 3 16 (of_size e))))
    where
      answered :
          (b : Bool)
          → (b ≡ true → Given (bytes_at raw 3 16))
          → Returns (
              if not b
              then some (s, true)
              else bytes_at raw 3 16 >>= λ bytes.
                  some (edit_tunnel s (λ t. record t { reply = bytes }), false))
      answered true k = Returns-bind _ (k refl) (λ b. Returns-tunnel s _ false h refl)
      answered false k = stop s true h

      of_size : (alength w - 6 == 16) ≡ true → 6 + 16 ≤ length raw
      of_size e = let q = (==_iff (alength w - 6) 16).0 e in omega arith

  code-Given : (m : ℕ) → Given (error_code raw m)
  unfolding error_code
  code-Given m =
      let (v, e) = word-inside raw 4 (omega arith) in rw e (Given-if (leb 10 m) (_, refl) (_, refl))

  text-Given : (m : ℕ) → m ≤ length raw → Given (error_text raw m)
  unfolding error_text
  text-Given m e =
      let (v, q) = copied 5 (min (m - 10) 119) (omega arith) in
      rw q (Given-if (ltb 10 m) (_, refl) (_, refl))

  pub result_code_avp-Returns : n ≤ length raw → Returns (result_code_avp s c raw n)
  unfolding result_code_avp
  result_code_avp-Returns e = Returns-length_type s c _ _ h (
      Returns-bind _ (word-inside raw 3 (omega arith))
        (λ v. search (Returns-if, Returns-edit, stop, Returns-bind, code-Given, text-Given)))

pub message_type_avp-Returns :
    (env : Env) (s : State) (c : ℕ) (raw : List ℕ) (n : ℕ)
    → HasCall s
    → 10 ≤ length raw
    → Returns (message_type_avp env s c raw n)
unfolding message_type_avp
message_type_avp-Returns env s c raw n h room =
    Returns-bind _ (word-inside raw 3 (omega arith)) (λ v.
      let s' = edit s c (λ k. record k { msgtype = pos v }) in
      let h' : HasCall s' = edit-HasCall s c (λ k. record k { msgtype = pos v }) h in
      let wrong = Returns-wrong s' c h' in
      let refused = stop s' true h' in
      let new = incoming_call-Returns env s' h' in
      let kept = stop s' false h' in search (Returns-if, wrong, refused, new, kept))
