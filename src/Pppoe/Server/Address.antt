-- ===== src/Pppoe/Server/Address.antt =====
-- `incrementIPAddress` adds one.
use zy_agf.Prelude.{ℕ, ◌+◌, ◌*◌, ◌%◌, ◌^◌, ◌<◌, ◌≡◌, arith}
use zy_agf.Pppoe.Server.{increment_ip_address}

-- The number of an address.
abbrev pub ip_number : ℕ × ℕ × ℕ × ℕ → ℕ
ip_number (a, b, c, d) = ((a * 256 + b) * 256 + c) * 256 + d

-- The address after it is the next number, and 0.0.0.0 after 255.255.255.255.
pub increment_ip_address_lem :
    (a b c d : ℕ)
    → a < 256
    → b < 256
    → c < 256
    → d < 256
    → ip_number (increment_ip_address a b c d) ≡ (ip_number (a, b, c, d) + 1) % 2 ^ 32
unfolding increment_ip_address
increment_ip_address_lem a b c d ha hb hc hd = ground arith
