-- ===== src/Xl2tpd/Avp/Opening/Built.antt =====
-- xl2tpd/control.c and avpsend.c: the bytes of the SCCRQ that `control_finish` builds.
use zy_agf.Prelude.{
  ℕ, ◌+◌, ◌%◌, ◌≤◌, min, true, false, none, List, [], ◌∷◌, ◌++◌, ◌≡◌, refl, sym, ◌∙◌, ap, arith,
  length, take, append_assoc, pos, append-nil, take-append,
}
use zy_agf.Pppoe.Tags.Scan.{encode16}
use zy_agf.Xl2tpd.Avp.{sccrq}
use zy_agf.Xl2tpd.Avp.Send.{
  vendor_name, add_nonmandatory_header, add_header, add_message_type_avp, add_protocol_avp,
  add_frame_caps_avp, add_bearer_caps_avp, add_firmware_avp, add_hostname_avp, add_vendor_avp,
  add_tunnelid_avp, add_avp_rws, Opening, add_sccrq,
}
use zy_agf.Xl2tpd.Avp.Deliver.{Plain, length_word, encode, encode_all}
use zy_agf.Xl2tpd.Avp.Opening.{one_word, low_word, text}

-- The AVPs of an SCCRQ without a random vector and a challenge.
abbrev pub plain_sccrq : ℕ → ℕ → List ℕ → ℕ → ℕ → List Plain
plain_sccrq fc bc name tid rws =
    one_word true 0 sccrq
    ∷ one_word true 2 0x100
    ∷ low_word 3 (fc % 65536)
    ∷ low_word 4 (bc % 65536)
    ∷ one_word false 6 0x0690
    ∷ text true 7 name
    ∷ text false 8 vendor_name
    ∷ one_word true 9 (tid % 65536)
    ∷ one_word true 10 (rws % 65536)
    ∷ []

abbrev pub opening : ℕ → ℕ → List ℕ → ℕ → ℕ → Opening
opening fc bc name tid rws = record {
  vector = none;
  ourfc = fc;
  ourbc = bc;
  name = name;
  ourtid = tid;
  ourrws = pos rws;
  challenge = none;
}

-- An AVP behind others.
encode_all-snoc :
    (avs : List Plain) (a : Plain)
    → encode_all avs [] ++ encode a [] ≡ encode_all (avs ++ a ∷ []) []
encode_all-snoc [] a = refl
encode_all-snoc (b ∷ avs) a =
    ap (λ r. encode16 (length_word b) (encode16 b.vendorid (encode16 b.attr r)))
      (append_assoc b.value (encode_all avs []) (encode a []))
    ∙ ap (encode b) (encode_all-snoc avs a)

-- Each function adds the bytes of one AVP.
module _ (buf : List ℕ) where
  add_message_type_lem :
      (v : ℕ) → add_message_type_avp buf v ≡ buf ++ encode (one_word true 0 (v % 65536)) []
  unfolding add_message_type_avp add_header add_nonmandatory_header
  add_message_type_lem v = append_assoc buf _ _

  add_protocol_lem : add_protocol_avp buf ≡ buf ++ encode (one_word true 2 0x100) []
  unfolding add_protocol_avp add_header add_nonmandatory_header
  add_protocol_lem = append_assoc buf _ _

  add_frame_caps_lem :
      (v : ℕ) → add_frame_caps_avp buf v ≡ buf ++ encode (low_word 3 (v % 65536)) []
  unfolding add_frame_caps_avp add_header add_nonmandatory_header
  add_frame_caps_lem v = append_assoc buf _ _

  add_bearer_caps_lem :
      (v : ℕ) → add_bearer_caps_avp buf v ≡ buf ++ encode (low_word 4 (v % 65536)) []
  unfolding add_bearer_caps_avp add_header add_nonmandatory_header
  add_bearer_caps_lem v = append_assoc buf _ _

  add_firmware_lem : add_firmware_avp buf ≡ buf ++ encode (one_word false 6 0x0690) []
  unfolding add_firmware_avp add_nonmandatory_header
  add_firmware_lem = append_assoc buf _ _

  add_hostname_lem :
      (name : List ℕ)
      → length name ≤ 119
      → add_hostname_avp buf name ≡ buf ++ encode (text true 7 name) []
  unfolding add_hostname_avp add_header add_nonmandatory_header
  add_hostname_lem name short =
      let all : min (length name) 1017 ≡ length name = omega arith in
      let word : 6 + length name + 0x8000 ≡ 0x8000 + (6 + length name) = omega arith in
      let cut : take (length name) name ≡ name ++ [] =
        ap (take (length name)) (sym (append-nil name))
        ∙ take-append name []
        ∙ sym (append-nil name) in
      rw (all, word, cut) (append_assoc buf _ _)

  add_vendor_lem : add_vendor_avp buf ≡ buf ++ encode (text false 8 vendor_name) []
  unfolding add_vendor_avp add_nonmandatory_header
  add_vendor_lem = append_assoc buf _ _

  add_tunnelid_lem :
      (v : ℕ) → add_tunnelid_avp buf v ≡ buf ++ encode (one_word true 9 (v % 65536)) []
  unfolding add_tunnelid_avp add_header add_nonmandatory_header
  add_tunnelid_lem v = append_assoc buf _ _

  add_rws_lem : (v : ℕ) → add_avp_rws buf v ≡ buf ++ encode (one_word true 10 (v % 65536)) []
  unfolding add_avp_rws add_header add_nonmandatory_header
  add_rws_lem v = append_assoc buf _ _

  -- One more AVP behind those that the buffer has got.
  more :
      (avs : List Plain) (a : Plain) (add : List ℕ → List ℕ) {b : List ℕ}
      → ((buf' : List ℕ) → add buf' ≡ buf' ++ encode a [])
      → b ≡ buf ++ encode_all avs []
      → add b ≡ buf ++ encode_all (avs ++ a ∷ []) []
  more avs a add {b} one e =
      one b
      ∙ ap (λ l. l ++ encode a []) e
      ∙ append_assoc buf (encode_all avs []) (encode a [])
      ∙ ap (λ l. buf ++ l) (encode_all-snoc avs a)

pub built :
    (fc bc : ℕ) (name : List ℕ) (tid rws : ℕ) (buf : List ℕ)
    → length name ≤ 119
    → add_sccrq (opening fc bc name tid rws) buf
      ≡ buf ++ encode_all (plain_sccrq fc bc name tid rws) []
unfolding add_sccrq
built fc bc name tid rws buf short =
    let p = plain_sccrq fc bc name tid rws in
    let e1 = add_message_type_lem buf sccrq in
    let e2 = more buf (take 1 p) (one_word true 2 0x100) add_protocol_avp add_protocol_lem e1 in
    let e3 =
      more buf (take 2 p) (low_word 3 (fc % 65536)) (λ b. add_frame_caps_avp b fc)
        (λ b. add_frame_caps_lem b fc) e2 in
    let e4 =
      more buf (take 3 p) (low_word 4 (bc % 65536)) (λ b. add_bearer_caps_avp b bc)
        (λ b. add_bearer_caps_lem b bc) e3 in
    let e5 = more buf (take 4 p) (one_word false 6 0x0690) add_firmware_avp add_firmware_lem e4 in
    let e6 =
      more buf (take 5 p) (text true 7 name) (λ b. add_hostname_avp b name)
        (λ b. add_hostname_lem b name short) e5 in
    let e7 = more buf (take 6 p) (text false 8 vendor_name) add_vendor_avp add_vendor_lem e6 in
    let e8 =
      more buf (take 7 p) (one_word true 9 (tid % 65536)) (λ b. add_tunnelid_avp b tid)
        (λ b. add_tunnelid_lem b tid) e7 in
    more buf (take 8 p) (one_word true 10 (rws % 65536)) (λ b. add_avp_rws b rws)
      (λ b. add_rws_lem b rws) e8
