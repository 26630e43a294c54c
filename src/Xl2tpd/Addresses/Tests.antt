-- ===== src/Xl2tpd/Addresses/Tests.antt =====
-- Tests and examples of the addresses: a pool of three, of which the second is denied.
use zy_agf.Prelude.{ℕ, ◌^◌, true, false, List, [], ◌∷◌, some, All, ◌≡◌, ◌≢◌, refl, arith}
use zy_agf.Xl2tpd.Addresses.{
  IpRange, init_addr, ip_used, in_chain, reserve_addr, status, search_range, get_addr,
}
use zy_agf.Xl2tpd.Addresses.InUse.{reserve, unreserve, run, run_set, run-refines}
use zy_agf.Xl2tpd.Addresses.Choice.{IsRange, Given, get_addr-Got, get_addr-reserve_addr}

abbrev pool : List IpRange
pool =
    record { start = 3232235777; end = 3232235779; allow = true }
    ∷ record { start = 3232235778; end = 3232235778; allow = false }
    ∷ []

-- The first is given, then the third, then none.
first : get_addr 10 init_addr pool ≡ some 3232235777
unfolding get_addr search_range ip_used in_chain init_addr status
first = refl

second : get_addr 10 (reserve_addr 3232235777 init_addr) pool ≡ some 3232235779
unfolding get_addr search_range ip_used in_chain init_addr status reserve_addr
second = refl

third : get_addr 10 (reserve_addr 3232235779 (reserve_addr 3232235777 init_addr)) pool ≡ some 0
unfolding get_addr search_range ip_used in_chain init_addr status reserve_addr
third = refl

-- The end 255.255.255.255 is never passed: `x` wraps, and the next address is outside the range.
wraps :
    get_addr 10
      (reserve_addr 0 (reserve_addr 4294967295 init_addr))
      (record { start = 4294967295; end = 4294967295; allow = true } ∷ [])
    ≡ some 1
unfolding get_addr search_range ip_used in_chain init_addr status reserve_addr
wraps = refl

run-refines_example :
    ip_used (run (reserve 7 ∷ reserve 263 ∷ unreserve 7 ∷ []) init_addr) 263
    ≡ run_set (reserve 7 ∷ reserve 263 ∷ unreserve 7 ∷ []) (λ b. false) 263
run-refines_example = run-refines (reserve 7 ∷ reserve 263 ∷ unreserve 7 ∷ []) 263

pool-IsRange : All IsRange pool
pool-IsRange = (
  record { start_fits = omega arith; end_fits = omega arith },
  (record { start_fits = omega arith; end_fits = omega arith }, tt),
)

get_addr-Got_example :
    (x : ℕ) × (get_addr (2 ^ 32) init_addr pool ≡ some x) × Given init_addr pool x
get_addr-Got_example = get_addr-Got init_addr pool (2 ^ 32) pool-IsRange (omega arith)

second_enough : get_addr (2 ^ 32) (reserve_addr 3232235777 init_addr) pool ≡ some 3232235779
unfolding get_addr search_range ip_used in_chain init_addr status reserve_addr
second_enough = refl

get_addr-reserve_addr_example : ◌≢◌ {A = ℕ} 3232235779 3232235777
get_addr-reserve_addr_example =
    get_addr-reserve_addr init_addr pool (2 ^ 32) 3232235777 3232235779 pool-IsRange (omega arith)
      second_enough (omega arith)
