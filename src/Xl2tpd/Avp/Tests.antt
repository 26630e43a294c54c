-- ===== src/Xl2tpd/Avp/Tests.antt =====
-- xl2tpd: concrete control messages.
use zy_agf.Prelude.{
  ◌>>=◌, ℕ, zero, suc, ◌*◌, ◌%◌, ◌<◌, get_or, drop, Bool, ltb, ◌&&◌, All, true, false, none, some,
  List, [], ◌∷◌, ◌++◌, ◌≡◌, refl, arith, length, pos, negsuc,
}
use zy_agf.Xl2tpd.Avp.Hidden.{encrypt_avp, decrypt_avp}
use zy_agf.Xl2tpd.Avp.Hidden.Segments.{IsByte}
use zy_agf.Xl2tpd.Avp.Hidden.RoundTrip.{decrypt_avp-encrypt_avp}
use zy_agf.Xl2tpd.Avp.{State, Tunnel, Challenge, Env, edit_tunnel, c_string}
use zy_agf.Xl2tpd.Avp.Message.{fresh_call}
use zy_agf.Xl2tpd.Avp.Loop.{handle_avps}
use zy_agf.Xl2tpd.Avp.Send.{add_sccrq}
use zy_agf.Xl2tpd.Avp.Returns.{Returns}
use zy_agf.Xl2tpd.Avp.Deliver.{Plain, encode, encode_all, deliver}
use zy_agf.Xl2tpd.Avp.Deliver.Run.{handle_avps-encode_all}
use zy_agf.Xl2tpd.Avp.Crash.{lax_ocrq, bearer_type, handle_avps_faults}
use zy_agf.Xl2tpd.Avp.Opening.{IsName}
use zy_agf.Xl2tpd.Avp.Opening.Built.{opening}
use zy_agf.Xl2tpd.Avp.Opening.RoundTrip.{learns, asks, handle_avps-add_sccrq}

abbrev env : Env
env = record { md5 = λ b. []; malloc = λ n. true; calloc = λ s. some 2; entropy = 5 }

abbrev new_tunnel : Tunnel
new_tunnel = record {
  state = 0;
  sanity = true;
  self = 1;
  call_head = none;
  count = 0;
  fc = negsuc 0;
  bc = negsuc 0;
  tid = pos 0;
  qtid = negsuc 0;
  firmware = negsuc 0;
  rws = negsuc 0;
  hostname = [];
  vendor = [];
  chal_us = record { secret = []; challenge = none; vector = none; state = 0 };
  reply = [];
}

abbrev start : State
start = record { tunnel = new_tunnel; heap = λ p. fresh_call 0 }

-- A tunnel that has one call.
abbrev busy : State
busy = record {
  tunnel = record new_tunnel { call_head = some 2; count = 1 };
  heap = λ p. fresh_call 0;
}

abbrev header : List ℕ
header = 200 ∷ 2 ∷ 0 ∷ 20 ∷ 0 ∷ 0 ∷ 0 ∷ 0 ∷ 0 ∷ 0 ∷ 0 ∷ 0 ∷ []

-- The message type AVP of an SCCRQ.
abbrev sccrq_type : List ℕ
sccrq_type = 128 ∷ 8 ∷ 0 ∷ 0 ∷ 0 ∷ 0 ∷ 0 ∷ 1 ∷ []

abbrev stale : List ℕ
stale = 9 ∷ 9 ∷ 9 ∷ 9 ∷ 9 ∷ 9 ∷ []

abbrev hello_message : List Plain
hello_message =
    record { mandatory = true; vendorid = 0; attr = 0; value = 0 ∷ 6 ∷ [] }
    ∷ record { mandatory = false; vendorid = 0; attr = 5; value = 1 ∷ 2 ∷ [] }
    ∷ []

handle_avps-encode_all_example :
    handle_avps env start 1 (header ++ encode_all hello_message stale) 28
    ≡ deliver env 1 hello_message stale start
handle_avps-encode_all_example =
    handle_avps-encode_all env start 1 header hello_message stale refl (omega arith) refl

handle_avps_faults_example :
    handle_avps env start 1
      (header ++ encode_all (lax_ocrq ∷ bearer_type true 0 0 0 1 ∷ []) stale)
      30
    ≡ none
handle_avps_faults_example = handle_avps_faults env start 1 refl true 0 0 0 1 header stale refl refl

abbrev host : List ℕ
host = 108 ∷ 110 ∷ 115 ∷ []

host-IsName : IsName host
unfolding c_string
host-IsName = record { short = omega arith; whole = refl }

handle_avps-add_sccrq_example :
    handle_avps env start 1
      (add_sccrq (opening 3 2 host 77 4) header ++ stale)
      (length (add_sccrq (opening 3 2 host 77 4) header))
    ≡ some (edit_tunnel (asks start 1) (learns 3 2 host 77 4), false)
handle_avps-add_sccrq_example =
    handle_avps-add_sccrq env start 1 refl refl 3 2 host 77 4 header stale refl (omega arith)
      (omega arith) host-IsName

abbrev are_bytes : List ℕ → Bool
are_bytes [] = true
are_bytes (b ∷ bs) = ltb b 256 && are_bytes bs

both : (b : ℕ) (c : Bool) → (ltb b 256 && c) ≡ true → (b < 256) × (c ≡ true)
both b c h = ground arith

all_small : (bs : List ℕ) → are_bytes bs ≡ true → All IsByte bs
all_small [] h = tt
all_small (b ∷ bs) h = let (small, rest) = both b (are_bytes bs) h in (small, all_small bs rest)

-- A digest of one byte.
abbrev short_md5 : List ℕ → List ℕ
short_md5 x = (length x * 7 % 256) ∷ []

short_md5-IsByte : (x : List ℕ) (k : ℕ) → get_or (short_md5 x) k 0 < 256
short_md5-IsByte x zero = omega arith
short_md5-IsByte x (suc k) = omega arith

abbrev hiding : Challenge
hiding = record {
  secret = 115 ∷ 51 ∷ [];
  challenge = none;
  vector = some (1 ∷ 2 ∷ 3 ∷ 4 ∷ 5 ∷ 6 ∷ 7 ∷ 8 ∷ 9 ∷ 10 ∷ 11 ∷ 12 ∷ 13 ∷ 14 ∷ 15 ∷ 16 ∷ []);
  state = 0;
}

-- A sub-address of sixteen bytes, which takes two segments.
abbrev sub_address : Plain
sub_address = record {
  mandatory = true;
  vendorid = 0;
  attr = 23;
  value = 48 ∷ 49 ∷ 50 ∷ 51 ∷ 52 ∷ 53 ∷ 54 ∷ 55 ∷ 56 ∷ 57 ∷ 48 ∷ 49 ∷ 50 ∷ 51 ∷ 52 ∷ 53 ∷ [];
}

abbrev padding : List ℕ
padding = 0 ∷ 0 ∷ 0 ∷ 0 ∷ 0 ∷ 0 ∷ 0 ∷ 0 ∷ 0 ∷ 0 ∷ 0 ∷ 0 ∷ 0 ∷ 255 ∷ []

decrypt_avp-encrypt_avp_example :
    (encrypt_avp
        (record env { md5 = short_md5 })
        hiding
        (header ++ (0 ∷ 0 ∷ encode sub_address (padding ++ stale)))
        34
        22
      >>= λ (mem, buf_len). decrypt_avp (record env { md5 = short_md5 }) hiding (drop 12 mem))
    ≡ some (some (encode sub_address (padding ++ stale)))
decrypt_avp-encrypt_avp_example =
    decrypt_avp-encrypt_avp (record env { md5 = short_md5 }) hiding sub_address 0 0 header padding
      stale (1 ∷ 2 ∷ 3 ∷ 4 ∷ 5 ∷ 6 ∷ 7 ∷ 8 ∷ 9 ∷ 10 ∷ 11 ∷ 12 ∷ 13 ∷ 14 ∷ 15 ∷ 16 ∷ [])
      short_md5-IsByte refl refl (omega arith) refl (all_small (sub_address.value ++ padding) refl)
