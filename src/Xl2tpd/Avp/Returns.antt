-- ===== src/Xl2tpd/Avp/Returns.antt =====
-- xl2tpd/avp.c: what makes the handlers return and the tunnel keep having a call.
pub mod Numbers
pub mod Strings
pub mod Table
use zy_agf.Prelude.{
  ◌>>=◌, ℕ, zero, suc, ◌+◌, ◌-◌, ◌*◌, ◌%◌, ◌≤◌, ◌<◌, min, Bool, true, false, not, ◌&&◌, ◌||◌,
  Option, none, some, List, [], ◌∷◌, ◌≡◌, refl, sym, ◌∙◌, ap, arith, ltb, leb, ◌==◌, get_elem?,
  length, take, drop, if◌then◌else◌, pos, ℤ,
}
use zy_agf.Xl2tpd.Avp.{
  State, Tunnel, Call, Env, Ran, Handler, word, bytes_at, alength, edit, edit_tunnel, wrong_length,
  check_type_length, check_length_type, type_in,
}
use zy_agf.Xl2tpd.Avp.Reads.{word-inside, bytes_at-inside}
use zy_agf.Xl2tpd.Avp.Message.{message_type_avp, incoming_call, new_call}
use zy_agf.Xl2tpd.Avp.Fields.{
  ignore_avp, edit_head, long_word, seq_reqd_avp, protocol_version_avp, framing_caps_avp,
  bearer_caps_avp, firmware_rev_avp, bearer_type_avp, frame_type_avp, assigned_tunnel_avp,
  assigned_call_avp, packet_delay_avp, call_serno_avp, rx_speed_avp, tx_speed_avp,
  call_physchan_avp, receive_window_size_avp,
}
use zy_agf.Xl2tpd.Avp.Texts.{
  value_size, value_string, hostname_avp, vendor_avp, dialing_number_avp, dialed_number_avp,
  sub_address_avp, rand_vector_avp, challenge_avp, chalresp_avp, result_code_avp, error_code,
  error_text,
}

abbrev pub HasCall : State → Type 0
HasCall s = (h : ℕ) × (s.tunnel.call_head ≡ some h)

-- The code returns, in a state where the tunnel has a call.
abbrev pub Returns : Ran → Type 0
Returns r = (s : State) × (bad : Bool) × (r ≡ some (s, bad)) × HasCall s

-- The bytes from an AVP on are enough for its handler, `w` its length word.
abbrev pub Enough : List ℕ → ℕ → Type 0
Enough raw w =
    (10 ≤ length raw) × (word raw 0 ≡ some w) × (alength w ≤ length raw) × (6 ≤ alength w)

-- Reading something gives a value.
abbrev pub Given : {A : Type 0} → Option A → Type 0
Given {A} o = (a : A) × (o ≡ some a)

pub Returns-if : (b : Bool) {x y : Ran} → Returns x → Returns y → Returns (if b then x else y)
Returns-if true p q = p
Returns-if false p q = q

pub Returns-decide :
    (b : Bool) {x y : Ran}
    → (b ≡ true → Returns x)
    → (b ≡ false → Returns y)
    → Returns (if b then x else y)
Returns-decide true p q = p refl
Returns-decide false p q = q refl

pub Returns-bind :
    {A : Type 0} {o : Option A} (f : A → Ran)
    → Given o
    → ((a : A) → Returns (f a))
    → Returns (o >>= f)
Returns-bind f (a, p) q = rw p (q a)

pub stop : (s : State) (bad : Bool) → HasCall s → Returns (some (s, bad))
stop s bad h = (s, bad, refl, h)

pub edit-HasCall : (s : State) (p : ℕ) (f : Call → Call) → HasCall s → HasCall (edit s p f)
unfolding edit
edit-HasCall s p f h = h

pub Returns-edit :
    (s : State) (p : ℕ) (f : Call → Call) (bad : Bool)
    → HasCall s
    → Returns (some (edit s p f, bad))
Returns-edit s p f bad h = stop (edit s p f) bad (edit-HasCall s p f h)

pub Returns-wrong : (s : State) (c : ℕ) → HasCall s → Returns (some (wrong_length s c, true))
unfolding wrong_length
Returns-wrong s c h = Returns-edit s c _ true h

-- A write to the tunnel that leaves its calls alone.
pub Returns-tunnel :
    (s : State) (f : Tunnel → Tunnel) (bad : Bool)
    → HasCall s
    → (f s.tunnel).call_head ≡ s.tunnel.call_head
    → Returns (some (edit_tunnel s f, bad))
unfolding edit_tunnel
Returns-tunnel s f bad (p, q) e = (_, _, refl, (p, e ∙ q))

module _ (s : State) (c : ℕ) (types : List ℕ) (right : Bool) {r : Ran} (h : HasCall s) where
  pub Returns-type_length : Returns r → Returns (check_type_length s c types right r)
  unfolding check_type_length
  Returns-type_length p = Returns-if _ (stop s false h) (Returns-if _ (Returns-wrong s c h) p)

  pub Returns-length_type : Returns r → Returns (check_length_type s c types right r)
  unfolding check_length_type
  Returns-length_type p = Returns-if _ (Returns-wrong s c h) (Returns-if _ (stop s false h) p)

pub Returns-head : (s : State) (f : Call → Call) → HasCall s → Returns (edit_head s f)
unfolding edit_head
Returns-head s f (p, q) = Returns-bind _ (p, q) (λ a. Returns-edit s a f false (p, q))
