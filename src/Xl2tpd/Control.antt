-- ===== src/Xl2tpd/Control.antt =====
-- xl2tpd/control.c: the reliable control channel, as built with SANITY. `check_control`,
-- `add_control_hdr`, `control_zlb`, `handle_control` and `handle_special`. Headers are in host order,
-- as `fix_hdr` leaves them; `len` is `buf->len`. A call's `container` is the tunnel beside it.
pub mod Window
pub mod Ack
mod Tests
use zy_agf.Prelude.{
  ℕ, ◌+◌, ◌-◌, ◌*◌, ◌/◌, ◌%◌, Bool, true, false, not, ◌&&◌, ◌||◌, List, [], ◌∷◌, ◌==◌, ltb, leb,
  if◌then◌else◌, ℤ, pos, negsuc, is_minus_one, to_u16,
}

-- `struct control_hdr`; also what is sent, since a ZLB is its header alone.
pub record ControlHdr : Type 0 where
  pub ver : ℕ
  pub length : ℕ
  pub tid : ℕ
  pub cid : ℕ
  pub ns : ℕ
  pub nr : ℕ

-- The fields of `struct tunnel` that the channel uses.
pub record Tunnel : Type 0 where
  pub tid : ℤ
  pub control_seq_num : ℕ
  pub control_rec_seq_num : ℕ
  pub clr : ℕ
  pub sanity : Bool

-- The fields of `struct call` that the channel uses; a flag that is 0 or -1 is a Boolean.
pub record Call : Type 0 where
  pub cid : ℕ
  pub cnu : Bool
  pub needclose : Bool
  pub closing : Bool
  pub msgtype : ℤ
  pub close_ss : ℕ

-- `ok` is the result 0, its negation -EINVAL; `sent` is what went to `udp_xmit`.
pub record Checked : Type 0 where
  pub ok : Bool
  pub tunnel : Tunnel
  pub call : Call
  pub sent : List ControlHdr

abbrev pub control_hdr_size : ℕ
control_hdr_size = 12

-- TBIT | LBIT | FBIT | VER_L2TP
abbrev pub control_ver : ℕ
control_ver = 0xC802

-- `CTBIT`, `CLBIT`, `CFBIT` and `CVER`
abbrev pub ctbit : ℕ → Bool
ctbit ver = ver / 0x8000 % 2 == 1

abbrev pub clbit : ℕ → Bool
clbit ver = ver / 0x4000 % 2 == 1

abbrev pub cfbit : ℕ → Bool
cfbit ver = ver / 0x0800 % 2 == 1

abbrev pub cver : ℕ → ℕ
cver ver = ver % 8

-- The header for a buffer that holds `len` bytes behind it, and the tunnel with its counter moved on.
unfoldable pub add_control_hdr : Tunnel → Call → ℕ → ControlHdr × Tunnel
add_control_hdr t c len = (
  record {
    ver = control_ver;
    length = (len + control_hdr_size) % 65536;
    tid = to_u16 t.tid;
    cid = c.cid % 65536;
    ns = t.control_seq_num;
    nr = t.control_rec_seq_num;
  },
  record t { control_seq_num = (t.control_seq_num + 1) % 65536 },
)

-- The buffer is made empty, gets a header, and the counter is taken back.
unfoldable pub control_zlb : Tunnel → Call → ControlHdr × Tunnel
unfolding add_control_hdr
control_zlb t c =
    let (h, t') = add_control_hdr t c 0 in
    (h, record t' { control_seq_num = (t'.control_seq_num + 65535) % 65536 })

-- The comparison of `check_control`. The two 16-bit numbers are promoted to `int`, so the difference
-- `rec - ns` is a signed number that does not wrap.
unfoldable pub already_received : ℕ → ℕ → Bool
already_received ns rec =
    (ltb ns rec && ltb rec (ns + 32768)) || (ltb rec ns && ltb (ns + 32768) rec)

-- The branch for a number that is not the expected one.
unfoldable pub out_of_order : ControlHdr → ℕ → Tunnel → Call → Checked
unfolding already_received control_zlb
out_of_order h len t c =
    if already_received h.ns t.control_rec_seq_num
    then (if len == control_hdr_size
        then record { ok = false; tunnel = t; call = c; sent = [] }
        else (let (z, t') = control_zlb t c in
            record { ok = false; tunnel = t'; call = c; sent = z ∷ [] }))
    else if t.control_rec_seq_num == 0 && is_minus_one t.tid
    then record {
      ok = false;
      tunnel = t;
      call = record c { needclose = false; closing = true };
      sent = [];
    }
    else record { ok = false; tunnel = t; call = c; sent = [] }

unfoldable pub check_control : ControlHdr → ℕ → Tunnel → Call → Checked
unfolding out_of_order
check_control h len t c =
    if ltb len control_hdr_size
    then record { ok = false; tunnel = t; call = c; sent = [] }
    else if not (len == h.length)
    then record { ok = false; tunnel = t; call = c; sent = [] }
    else if not (h.ns == t.control_rec_seq_num)
    then out_of_order h len t c
    else record {
      ok = if t.sanity then ctbit h.ver && clbit h.ver && cfbit h.ver && cver h.ver == 2 else true;
      tunnel = record t { control_rec_seq_num = (t.control_rec_seq_num + 1) % 65536; clr = h.nr };
      call = record c { cnu = true };
      sent = [];
    }

-- The handlers of messages: `handle_avps`, and `control_finish` after it. They are given as one function
-- of the state, with its result and what it sends.
abbrev pub Handler : Type 0
Handler = Tunnel → Call → Checked

-- A ZLB, after `check_control`: the number goes back, and the last step of closing may follow.
unfoldable pub zlb_received : Tunnel → Call → Checked
zlb_received t c =
    let t' = record t { control_rec_seq_num = (t.control_rec_seq_num + 65535) % 65536 } in
    record {
      ok = true;
      tunnel = t';
      call = record c {
        cnu = false;
        needclose =
            if c.needclose && c.closing && leb c.close_ss t'.clr then false else c.needclose;
      };
      sent = [];
    }

unfoldable pub handle_control : Handler → ControlHdr → ℕ → Tunnel → Call → Checked
unfolding zlb_received
handle_control handle h len t c =
    let r = check_control h len t c in
    let c' = record r.call { msgtype = negsuc 0 } in
    if not r.ok
    then r
    else if len == control_hdr_size
    then zlb_received r.tunnel c'
    else handle r.tunnel c'

-- `network_thread` after `handle_packet`: an update that is due is sent as a ZLB.
unfoldable pub acknowledge : Tunnel → Call → Checked
unfolding control_zlb
acknowledge t c =
    if c.cnu
    then (let (z, t') = control_zlb t c in
        record { ok = true; tunnel = t'; call = record c { cnu = false }; sent = z ∷ [] })
    else record { ok = true; tunnel = t; call = c; sent = [] }

-- A packet for a call that does not exist, on the tunnel's own call `c`; `ok` is the result 1.
unfoldable pub handle_special : ControlHdr → ℕ → ℕ → Tunnel → Call → Checked
unfolding control_zlb
handle_special h len call t c =
    let r = check_control h len t (record c { cid = call }) in
    let c' = record r.call { cid = 0 } in
    if not (ctbit h.ver)
    then record { ok = false; tunnel = t; call = c; sent = [] }
    else if not r.ok
    then record { ok = false; tunnel = r.tunnel; call = c'; sent = r.sent }
    else if len == control_hdr_size
    then record { ok = false; tunnel = r.tunnel; call = c'; sent = [] }
    else (let (z, t') = control_zlb r.tunnel r.call in
        record { ok = true; tunnel = t'; call = c'; sent = z ∷ [] })
