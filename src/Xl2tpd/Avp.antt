-- ===== src/Xl2tpd/Avp.antt =====
-- xl2tpd: the attribute value pairs of a control message, built with SANITY and without STRICT. What
-- the handlers of avp.c keep: `struct call` of call.h and `struct tunnel` of l2tp.h as far as avp.c
-- reads or writes them, `wrong_length` of avp.c, `set_error` of call.c and `safe_copy` of misc.c. Calls
-- lie in a store and are named by their addresses, so that `c`, `t->self` and `t->call_head` may be the
-- same call. A `char` array is the C string in it. An AVP is the list of the bytes of the buffer from
-- its header on, in network order: the model leaves out that `swaps` turns the header to host order in
-- place. `none` stands for a read outside the buffer or through a null pointer.
pub mod Message
pub mod Fields
pub mod Texts
pub mod Hidden
pub mod Loop
pub mod Send
pub mod Reads
pub mod Returns
pub mod Total
pub mod Deliver
pub mod Crash
pub mod Opening
mod Tests
use zy_agf.Prelude.{
  ◌>>=◌, ℕ, zero, suc, ◌+◌, ◌-◌, ◌*◌, ◌%◌, min, Bool, true, false, not, ◌&&◌, Option, none, some,
  List, [], ◌∷◌, ◌==◌, leb, if◌then◌else◌, get_elem?, length, take, drop, ℤ, pos, negsuc, ◌≡◌, refl,
  arith,
}
use zy_agf.Pppoe.Relay.Table.{elem}

-- What an error message is: empty, sent by the peer, or one that this daemon has formatted, whose text
-- is not modelled.
pub data ErrorMsg : Type 0 where
  blank : ErrorMsg
  sent_by_peer : List ℕ → ErrorMsg
  formatted : ErrorMsg

-- `serno`, `txspeed`, `rxspeed` and `physchan` are 32-bit patterns; a flag that is 0 or -1 is a Boolean.
pub record Call : Type 0 where
  pub state : ℕ
  pub msgtype : ℤ
  pub next : Option ℕ
  pub ourcid : ℕ
  pub cid : ℤ
  pub qcid : ℤ
  pub seq_reqd : Bool
  pub frame : ℕ
  pub bearer : ℤ
  pub serno : ℕ
  pub txspeed : ℕ
  pub rxspeed : ℕ
  pub ppd : ℕ
  pub physchan : ℕ
  pub dialed : List ℕ
  pub dialing : List ℕ
  pub subaddy : List ℕ
  pub needclose : Bool
  pub error : ℤ
  pub result : ℤ
  pub errormsg : ErrorMsg

-- `chal_len` and `vector_len` are the lengths of the lists.
pub record Challenge : Type 0 where
  pub secret : List ℕ
  pub challenge : Option (List ℕ)
  pub vector : Option (List ℕ)
  pub state : ℕ

-- `reply` is `chal_them.reply`.
pub record Tunnel : Type 0 where
  pub state : ℕ
  pub sanity : Bool
  pub self : ℕ
  pub call_head : Option ℕ
  pub count : ℕ
  pub fc : ℤ
  pub bc : ℤ
  pub tid : ℤ
  pub qtid : ℤ
  pub firmware : ℤ
  pub rws : ℤ
  pub hostname : List ℕ
  pub vendor : List ℕ
  pub chal_us : Challenge
  pub reply : List ℕ

pub record State : Type 0 where
  pub tunnel : Tunnel
  pub heap : ℕ → Call

-- What the code takes from outside: the digest of md5.c, whether `malloc` of a size succeeds, the
-- address that `calloc` gives for a call, and the number that `get_entropy` reads.
pub record Env : Type 0 where
  pub md5 : List ℕ → List ℕ
  pub malloc : ℕ → Bool
  pub calloc : State → Option ℕ
  pub entropy : ℕ

-- The state after a handler and whether its result is not 0.
abbrev pub Ran : Type 0
Ran = Option (State × Bool)

-- A handler gets the call, the bytes from its AVP on, and the length of the AVP.
abbrev pub Handler : Type 0
Handler = State → ℕ → List ℕ → ℕ → Ran

abbrev pub sccrq : ℕ
sccrq = 1

abbrev pub sccrp : ℕ
sccrp = 2

abbrev pub scccn : ℕ
scccn = 3

abbrev pub stop_ccn : ℕ
stop_ccn = 4

abbrev pub hello : ℕ
hello = 6

abbrev pub ocrq : ℕ
ocrq = 7

abbrev pub ocrp : ℕ
ocrp = 8

abbrev pub occn : ℕ
occn = 9

abbrev pub icrq : ℕ
icrq = 10

abbrev pub icrp : ℕ
icrp = 11

abbrev pub iccn : ℕ
iccn = 12

abbrev pub cdn : ℕ
cdn = 14

abbrev pub sli : ℕ
sli = 16

abbrev pub max_strlen : ℕ
max_strlen = 120

-- `sizeof (struct avp_hdr)`
abbrev pub avp_hdr_size : ℕ
avp_hdr_size = 6

pub ==_refl : (n : ℕ) → (n == n) ≡ true
==_refl n = ground arith

-- A write to the call at an address.
unfoldable pub edit : State → ℕ → (Call → Call) → State
edit s p f = record s { heap = λ q. if q == p then f (s.heap p) else s.heap q }

pub edit-tunnel : (s : State) (p : ℕ) (f : Call → Call) → (edit s p f).tunnel ≡ s.tunnel
unfolding edit
edit-tunnel s p f = refl

pub edit-at : (s : State) (p : ℕ) (f : Call → Call) → (edit s p f).heap p ≡ f (s.heap p)
unfolding edit
edit-at s p f = rw (==_refl p) refl

unfoldable pub edit_tunnel : State → (Tunnel → Tunnel) → State
edit_tunnel s f = record s { tunnel = f s.tunnel }

-- `error` is ERROR_LENGTH and `result` RESULT_ERROR.
unfoldable pub wrong_length : State → ℕ → State
wrong_length s c =
    edit s c
      (λ k. record k { errormsg = formatted; error = pos 2; result = pos 2; needclose = true })

unfoldable pub set_error : State → ℕ → ℕ → State
set_error s c error =
    edit s c
      (λ k. record k { error = pos error; result = pos 2; needclose = true; errormsg = formatted })

-- `raw[k].s` in host order.
unfoldable pub word : List ℕ → ℕ → Option ℕ
word raw k = do hi ← get_elem? raw (2 * k); lo ← get_elem? raw (2 * k + 1); some (hi * 256 + lo)

-- The bytes of a copy that starts at `raw[k]`.
unfoldable pub bytes_at : List ℕ → ℕ → ℕ → Option (List ℕ)
bytes_at raw k n = if leb (2 * k + n) (length raw) then some (take n (drop (2 * k) raw)) else none

-- `ALENGTH`
abbrev pub alength : ℕ → ℕ
alength len = len % 0x400

-- The bytes up to the first 0.
unfoldable pub c_string : List ℕ → List ℕ
c_string [] = []
c_string (b ∷ bs) = let rest = c_string bs in if b == 0 then [] else b ∷ rest

-- The string that `safe_copy` leaves in its target; the bytes are those that `size` names.
unfoldable pub safe_copy : List ℕ → List ℕ
safe_copy bytes = c_string (take (min (length bytes) (max_strlen - 1)) bytes)

-- Whether the message type of a call is one of a `switch`'s cases.
unfoldable pub type_in : ℤ → List ℕ → Bool
type_in (pos n) types = elem n types
type_in (negsuc n) types = false

-- The SANITY block that looks at the message type first and ignores the AVP where it is not
-- appropriate, then refuses a wrong length.
unfoldable pub check_type_length : State → ℕ → List ℕ → Bool → Ran → Ran
check_type_length s c types right_length go_on =
    if s.tunnel.sanity && not (type_in (s.heap c).msgtype types)
    then some (s, false)
    else if s.tunnel.sanity && not right_length
    then some (wrong_length s c, true)
    else go_on

-- The SANITY block that looks at the length first.
unfoldable pub check_length_type : State → ℕ → List ℕ → Bool → Ran → Ran
check_length_type s c types right_length go_on =
    if s.tunnel.sanity && not right_length
    then some (wrong_length s c, true)
    else if s.tunnel.sanity && not (type_in (s.heap c).msgtype types)
    then some (s, false)
    else go_on
