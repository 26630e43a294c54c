-- ===== src/Xl2tpd/Avp/Total.antt =====
-- xl2tpd/avp.c: the end of `handle_avps`, and its reads.
pub mod Unhidden
use zy_agf.Prelude.{
  ◌<◌, ◌≤◌, ◌-◌, ltb, ◌&&◌, ◌||◌, not, ◌==◌, length-drop, drop, length, refl, arith, ◌+◌, true,
  false, ◌>>=◌, ℕ, zero, suc, ◌+◌, ◌-◌, ◌*◌, ◌/◌, ◌%◌, ◌≤◌, ◌<◌, min, Bool, true, false, not, ◌&&◌,
  ◌||◌, Option, none, some, List, [], ◌∷◌, ◌++◌, ◌≡◌, ◌≢◌, refl, sym, ◌∙◌, ap, arith, ltb, leb,
  ◌==◌, get_or, length, take, drop, if◌then◌else◌, length-drop, Bool-cases, inl, inr, All,
}
use zy_agf.Xl2tpd.Avp.{
  Ran, State, Env, Ran, Handler, word, alength, edit, set_error, Challenge, Call,
}
use zy_agf.Xl2tpd.Avp.Reads.{word-inside}
use zy_agf.Xl2tpd.Avp.Loop.{
  avps_from, handle_avps, avp_step, azbits, ahbit, go_on, avps, handler, Pass, refuse, next,
  fail_if_mandatory, handled, call_handler, call_with, unhidden, unhide, avp_step, go_on, avps_from,
  handle_avps, azbits, ahbit, ambit,
}
use zy_agf.Xl2tpd.Avp.Hidden.{decrypt_avp}
use zy_agf.Xl2tpd.Avp.Message.{message_type_avp}
use zy_agf.Xl2tpd.Avp.Fields.{
  ignore_avp, seq_reqd_avp, protocol_version_avp, framing_caps_avp, bearer_caps_avp,
  firmware_rev_avp, bearer_type_avp, frame_type_avp, assigned_tunnel_avp, assigned_call_avp,
  packet_delay_avp, call_serno_avp, rx_speed_avp, tx_speed_avp, call_physchan_avp,
  receive_window_size_avp,
}
use zy_agf.Xl2tpd.Avp.Texts.{
  hostname_avp, vendor_avp, dialing_number_avp, dialed_number_avp, sub_address_avp, rand_vector_avp,
  challenge_avp, chalresp_avp, result_code_avp,
}
use zy_agf.Xl2tpd.Avp.Returns.{
  HasCall, Returns, Returns-if, Returns-decide, stop, edit-HasCall, Enough,
}
use zy_agf.Xl2tpd.Avp.Returns.Numbers.{
  ignore_avp-Returns, seq_reqd_avp-Returns, protocol_version_avp-Returns, framing_caps_avp-Returns,
  bearer_caps_avp-Returns, firmware_rev_avp-Returns, receive_window_size_avp-Returns,
  bearer_type_avp-Returns, frame_type_avp-Returns, packet_delay_avp-Returns, call_serno_avp-Returns,
  rx_speed_avp-Returns, tx_speed_avp-Returns, call_physchan_avp-Returns,
  assigned_tunnel_avp-Returns, assigned_call_avp-Returns,
}
use zy_agf.Xl2tpd.Avp.Returns.Strings.{
  hostname_avp-Returns, vendor_avp-Returns, dialing_number_avp-Returns, dialed_number_avp-Returns,
  sub_address_avp-Returns, rand_vector_avp-Returns, challenge_avp-Returns, chalresp_avp-Returns,
  result_code_avp-Returns, message_type_avp-Returns,
}
use zy_agf.Xl2tpd.Avp.Total.Unhidden.{Clear, decrypt_avp-Clear}
use zy_agf.Xl2tpd.Avp.Returns.Table.{ReturnsAlways, handler-ReturnsAlways}

-- The state after a pass, and that the tunnel has a call in it.
abbrev HasPass : Pass → Type 0
HasPass (refuse s) = HasCall s
HasPass (next s skip) = HasCall s

abbrev Passes : Option Pass → Type 0
Passes o = (step : Pass) × (o ≡ some step) × HasPass step

Passes-some : (step : Pass) → HasPass step → Passes (some step)
Passes-some step h = (step, refl, h)

Passes-if : (b : Bool) {x y : Option Pass} → Passes x → Passes y → Passes (if b then x else y)
Passes-if true p q = p
Passes-if false p q = q

Passes-decide :
    (b : Bool) {x y : Option Pass}
    → (b ≡ true → Passes x)
    → (b ≡ false → Passes y)
    → Passes (if b then x else y)
Passes-decide true p q = p refl
Passes-decide false p q = q refl

set_error-HasCall : (s : State) (c e : ℕ) → HasCall s → HasCall (set_error s c e)
unfolding set_error
set_error-HasCall s c e h = edit-HasCall s c _ h

fail_if_mandatory-HasPass :
    (s : State) (c w e skip : ℕ) → HasCall s → HasPass (fail_if_mandatory s c w e skip)
unfolding fail_if_mandatory
fail_if_mandatory-HasPass s c w e skip h = by_bit (ambit w)
  where
    by_bit : (b : Bool) → HasPass (if b then refuse (set_error s c e) else next s skip)
    by_bit true = set_error-HasCall s c e h
    by_bit false = h

handled-HasPass :
    (c w skip : ℕ) (s : State) (bad : Bool) → HasCall s → HasPass (handled c w skip (s, bad))
unfolding handled
handled-HasPass c w skip s bad h = by_bit (bad && ambit w)
  where
    by_bit :
        (b : Bool)
        → HasPass
            (if b then refuse (edit s c (λ k. record k { needclose = true })) else next s skip)
    by_bit true = edit-HasCall s c _ h
    by_bit false = h

module _ (env : Env) (s : State) (c : ℕ) (h : HasCall s) where
  call_with-Passes :
      (raw : List ℕ) (w skip : ℕ) (o : Option Handler)
      → ReturnsAlways o
      → Enough raw w
      → Passes (call_with s c raw w skip o)
  unfolding call_with
  call_with-Passes raw w skip none r e = Passes-some _ (fail_if_mandatory-HasPass s c w 6 skip h)
  call_with-Passes raw w skip (some handle) r e =
      let (s', bad, q, h') = r s c raw w h e in
      rw q (Passes-some _ (handled-HasPass c w skip s' bad h'))

  call_handler-Passes :
      (raw : List ℕ) (w attr skip : ℕ)
      → Enough raw w
      → Passes (call_handler env s c raw w attr skip)
  unfolding call_handler
  call_handler-Passes raw w attr skip e =
      call_with-Passes raw w skip (handler env attr) (handler-ReturnsAlways env attr) e

  unhidden-Passes :
      (w attr : ℕ) (r : Option (List ℕ)) → Clear r → Passes (unhidden env s c w attr r)
  unfolding unhidden
  unhidden-Passes w attr none k = Passes-some _ (fail_if_mandatory-HasPass s c w 6 _ h)
  unhidden-Passes w attr (some raw) (Clear.in_clear _ w' e) =
      rw (e.1) (call_handler-Passes raw w' attr _ e)

  unhide-Passes :
      (raw : List ℕ) (w attr : ℕ)
      → word raw 0 ≡ some w
      → w % 0x1000 ≡ alength w
      → 12 ≤ length raw
      → alength w ≤ length raw
      → 6 ≤ alength w
      → Passes (unhide env s c raw w attr)
  unfolding unhide
  unhide-Passes raw w attr p flat long fits least =
      let (r, q, k) = decrypt_avp-Clear env s.tunnel.chal_us raw w p flat long fits least in
      rw q (unhidden-Passes w attr r k)

  refused : (e : ℕ) → Passes (some (refuse (set_error s c e)))
  refused e = Passes-some _ (set_error-HasCall s c e h)

  lenient : (w e skip : ℕ) → Passes (some (fail_if_mandatory s c w e skip))
  lenient w e skip = Passes-some _ (fail_if_mandatory-HasPass s c w e skip h)

  avp_tests-Passes :
      (raw : List ℕ) (len : ℕ) (first : Bool) (w attr : ℕ)
      → word raw 0 ≡ some w
      → word raw 2 ≡ some attr
      → len + 6 ≤ length raw
      → Passes (avp_step env s c raw len first)
  unfolding avp_step
  avp_tests-Passes raw len first w attr p q room =
      rw (p, q)
        (Passes-if (ltb 39 attr) (lenient w 6 (alength w)) (
          Passes-decide (ltb len (alength w)) (λ _. refused 2)
            (λ fits. Passes-if (not (attr == 0) && first) (refused 6) (
              Passes-decide (ltb (alength w) 6) (λ _. refused 2)
                (λ least.
                  Passes-decide (azbits w) (λ _. lenient w 3 (alength w))
                    (λ flat.
                      Passes-if (ahbit w)
                        (unhide-Passes raw w attr p (ground arith) (ground arith) (ground arith)
                          (ground arith))
                        (call_handler-Passes raw w attr (alength w)
                          (ground arith, p, ground arith, ground arith))))))))

  -- One pass, on `len` bytes of the packet with six more bytes behind them.
  avp_step-Passes :
      (raw : List ℕ) (len : ℕ) (first : Bool)
      → len + 6 ≤ length raw
      → Passes (avp_step env s c raw len first)
  avp_step-Passes raw len first room =
      let (w, p) = word-inside raw 0 (omega arith) in
      let (attr, q) = word-inside raw 2 (omega arith) in
      avp_tests-Passes raw len first w attr p q room

Passes-go_on :
    (len : ℕ) (again : State → ℕ → Ran) (step : Pass)
    → HasPass step
    → ((s : State) (skip : ℕ) → HasCall s → 0 < skip → skip ≤ len → Returns (again s skip))
    → Returns (go_on len again step)
unfolding go_on
Passes-go_on len again (refuse s) h k = stop s true h
Passes-go_on len again (next s skip) h k =
    Returns-decide (skip == 0 || ltb len skip) (λ _. stop s true h)
      (λ e. k s skip h (ground arith) (ground arith))

-- The loop, with fuel for every byte that is left and one more.
pub avps_from-Returns :
    (env : Env) (c fuel : ℕ) (s : State) (raw : List ℕ) (len : ℕ) (first : Bool)
    → HasCall s
    → len < fuel
    → len + 6 ≤ length raw
    → Returns (avps_from env fuel s c raw len first)
unfolding avps_from
avps_from-Returns env c zero s raw len first h enough room = absurd (omega arith)
avps_from-Returns env c (suc fuel) s raw len first h enough room =
    let (step, p, k) = avp_step-Passes env s c h raw len first room in
    Returns-if (len == 0) (stop s false h) (
      rw p (
        Passes-go_on len _ step k (λ s' skip h' some_skip inside.
          avps_from-Returns env c fuel s' (drop skip raw) (len - skip) false h' (omega arith)
            (omega (arith, length-drop skip raw)))))
