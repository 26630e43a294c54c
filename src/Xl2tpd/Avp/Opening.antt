-- ===== src/Xl2tpd/Avp/Opening.antt =====
-- xl2tpd/avp.c: what the handlers do with the AVPs of an SCCRQ.
pub mod Built
pub mod RoundTrip
use zy_agf.Prelude.{
  length-append, ◌>>=◌, ℕ, suc, ◌+◌, ◌-◌, ◌*◌, ◌/◌, ◌%◌, ◌≤◌, ◌<◌, ◌≢◌, min, Bool, true, false, not,
  ◌&&◌, ◌==◌, none, some, List, [], ◌∷◌, ◌++◌, ◌≡◌, refl, sym, ◌∙◌, ap, arith, length, take, drop,
  if◌then◌else◌, append_assoc, All, leb, pos, length-take, le→leb, take-append, append-nil,
}
use zy_agf.Xl2tpd.Avp.{
  State, Tunnel, Call, Env, Ran, Handler, word, bytes_at, alength, edit, edit-at, edit_tunnel,
  sccrq, safe_copy, c_string, check_type_length, check_length_type, type_in,
}
use zy_agf.Xl2tpd.Avp.Reads.{bytes_at-inside}
use zy_agf.Xl2tpd.Avp.Message.{known_message, sane_message, message_type_avp}
use zy_agf.Xl2tpd.Avp.Fields.{
  protocol_version_avp, framing_caps_avp, bearer_caps_avp, firmware_rev_avp, assigned_tunnel_avp,
  receive_window_size_avp,
}
use zy_agf.Xl2tpd.Avp.Texts.{value_size, value_string, hostname_avp, vendor_avp}
use zy_agf.Xl2tpd.Avp.Loop.{avps, handler, handle_avps}
use zy_agf.Xl2tpd.Avp.Send.{
  vendor_name, add_nonmandatory_header, add_header, add_message_type_avp, add_protocol_avp,
  add_frame_caps_avp, add_bearer_caps_avp, add_firmware_avp, add_hostname_avp, add_vendor_avp,
  add_tunnelid_avp, add_avp_rws, Opening, add_sccrq,
}
use zy_agf.Pppoe.Tags.Scan.{encode16}
use zy_agf.Xl2tpd.Avp.Deliver.{
  Plain, Fits, encode, encode_all, deliver_one, deliver, size, word0, alength-length_word,
}
use zy_agf.Xl2tpd.Avp.Deliver.Run.{handle_avps-encode_all}

-- The call holds the message type of an SCCRQ.
abbrev pub Asked : State → ℕ → Type 0
Asked s c = (s.heap c).msgtype ≡ pos sccrq

-- A handler that succeeds passes its state on.
pub deliver-cons :
    (env : Env) (c : ℕ) (a : Plain) (avs : List Plain) (rest : List ℕ) (s s' : State)
    {handle : Handler}
    → handler env a.attr ≡ some handle
    → handle s c (encode_all (a ∷ avs) rest) (6 + length a.value) ≡ some (s', false)
    → deliver env c (a ∷ avs) rest s ≡ deliver env c avs rest s'
unfolding deliver deliver_one
deliver-cons env c a avs rest s s' p q = rw (p, q) refl

pub join16 : (n : ℕ) → n / 256 * 256 + n % 256 ≡ n
join16 n = omega arith

-- An AVP with one word and one with two.
abbrev pub one_word : Bool → ℕ → ℕ → Plain
one_word m attr v = record { mandatory = m; vendorid = 0; attr = attr; value = encode16 v [] }

abbrev pub low_word : ℕ → ℕ → Plain
low_word attr v = record {
  mandatory = true;
  vendorid = 0;
  attr = attr;
  value = encode16 0 (encode16 v []);
}

word3-one_word :
    (m : Bool) (attr v : ℕ) (rest : List ℕ) → word (encode (one_word m attr v) rest) 3 ≡ some v
unfolding word
word3-one_word m attr v rest = ap some (join16 v)

word4-low_word : (attr v : ℕ) (rest : List ℕ) → word (encode (low_word attr v) rest) 4 ≡ some v
unfolding word
word4-low_word attr v rest = ap some (join16 v)

tests_passed :
    {A : Type 0} (b : Bool) (x y k : A)
    → (if b && false then x else if b && false then y else k) ≡ k
tests_passed true x y k = refl
tests_passed false x y k = refl

module _ (s : State) (c : ℕ) (h : Asked s c) where
  -- The tests of a handler that an SCCRQ may come to and whose length is right.
  type_length_passed :
      (types : List ℕ) (k : Ran)
      → type_in (pos sccrq) types ≡ true
      → check_type_length s c types true k ≡ k
  unfolding check_type_length
  type_length_passed types k e = rw (h, e) (search tests_passed)

  length_type_passed :
      (types : List ℕ) (k : Ran)
      → type_in (pos sccrq) types ≡ true
      → check_length_type s c types true k ≡ k
  unfolding check_length_type
  length_type_passed types k e = rw (h, e) (search tests_passed)

  pub protocol_lem :
      (v : ℕ) (rest : List ℕ)
      → protocol_version_avp s c (encode (one_word true 2 v) rest) 8 ≡ some (s, false)
  unfolding protocol_version_avp type_in
  protocol_lem v rest = rw (word3-one_word true 2 v rest) (length_type_passed _ _ refl)

  pub framing_lem :
      (v : ℕ) (rest : List ℕ)
      → v < 4
      → framing_caps_avp s c (encode (low_word 3 v) rest) 10
        ≡ some (edit_tunnel s (λ t. record t { fc = pos v }), false)
  unfolding framing_caps_avp type_in
  framing_lem v rest small =
      let low : v % 4 ≡ v = omega arith in
      rw (word4-low_word 3 v rest, low) (type_length_passed _ _ refl)

  pub bearer_lem :
      (v : ℕ) (rest : List ℕ)
      → v < 4
      → bearer_caps_avp s c (encode (low_word 4 v) rest) 10
        ≡ some (edit_tunnel s (λ t. record t { bc = pos v }), false)
  unfolding bearer_caps_avp type_in
  bearer_lem v rest small =
      let low : v % 4 ≡ v = omega arith in
      rw (word4-low_word 4 v rest, low) (type_length_passed _ _ refl)

  pub firmware_lem :
      (v : ℕ) (rest : List ℕ)
      → firmware_rev_avp s c (encode (one_word false 6 v) rest) 8
        ≡ some (edit_tunnel s (λ t. record t { firmware = pos v }), false)
  unfolding firmware_rev_avp type_in
  firmware_lem v rest = rw (word3-one_word false 6 v rest) (type_length_passed _ _ refl)

  pub tunnel_lem :
      (v : ℕ) (rest : List ℕ)
      → assigned_tunnel_avp s c (encode (one_word true 9 v) rest) 8
        ≡ some (edit_tunnel s (λ t. record t { tid = pos v }), false)
  unfolding assigned_tunnel_avp type_in
  tunnel_lem v rest = rw (word3-one_word true 9 v rest, h) (type_length_passed _ _ refl)

  pub window_lem :
      (v : ℕ) (rest : List ℕ)
      → receive_window_size_avp s c (encode (one_word true 10 v) rest) 8
        ≡ some (edit_tunnel s (λ t. record t { rws = pos v }), false)
  unfolding receive_window_size_avp type_in
  window_lem v rest = rw (word3-one_word true 10 v rest) (type_length_passed _ _ refl)

-- A name that fits its array and has no 0.
pub record IsName (name : List ℕ) : Type 0 where
  pub short : length name ≤ 119
  pub whole : c_string name ≡ name

abbrev pub text : Bool → ℕ → List ℕ → Plain
text m attr name = record { mandatory = m; vendorid = 0; attr = attr; value = name }

take_all : {A : Type 0} (xs rest : List A) (n : ℕ) → n ≡ length xs → take n (xs ++ rest) ≡ xs
take_all xs rest n e = rw e (take-append xs rest)

safe_copy-IsName : (name : List ℕ) → IsName name → safe_copy name ≡ name
unfolding safe_copy
safe_copy-IsName name k =
    let whole : take (min (length name) 119) name ≡ name =
      ap (take (min (length name) 119)) (sym (append-nil name))
      ∙ take_all name [] (min (length name) 119) (ground (arith, k.short)) in
    rw whole k.whole

value_string-text :
    (m : Bool) (attr : ℕ) (name rest : List ℕ)
    → attr ≤ 39
    → IsName name
    → value_string (encode (text m attr name) rest) ≡ some name
unfolding value_string value_size
value_string-text m attr name rest small k =
    let f : Fits (text m attr name) = record { known = small; short = omega (arith, k.short) } in
    let short = k.short in
    let least : min (6 + length name - 6) 119 ≡ length name = omega arith in
    rw
      (
        word0 (text m attr name) rest,
        alength-length_word (text m attr name) f,
        least,
        copied,
        safe_copy-IsName name k,
      )
      refl
  where
    copied : bytes_at (encode (text m attr name) rest) 3 (length name) ≡ some name
    copied =
        bytes_at-inside (encode (text m attr name) rest) 3 (length name)
          (omega (arith, length-append name rest))
        ∙ ap some (take-append name rest)

module _ (s : State) (c : ℕ) (h : Asked s c) (name rest : List ℕ) (k : IsName name) where
  right_length : leb 6 (6 + length name) ≡ true
  right_length = le→leb 6 (6 + length name) (omega arith)

  pub hostname_lem :
      hostname_avp s c (encode (text true 7 name) rest) (6 + length name)
      ≡ some (edit_tunnel s (λ t. record t { hostname = name }), false)
  unfolding hostname_avp type_in
  hostname_lem =
      rw (value_string-text true 7 name rest (omega arith) k, right_length)
        (type_length_passed s c h _ _ refl)

  pub vendor_lem :
      vendor_avp s c (encode (text false 8 name) rest) (6 + length name)
      ≡ some (edit_tunnel s (λ t. record t { vendor = name }), false)
  unfolding vendor_avp type_in
  vendor_lem =
      rw (value_string-text false 8 name rest (omega arith) k, right_length)
        (type_length_passed s c h _ _ refl)
