-- ===== src/Tests/ConfigTests.antt =====
-- Configurations, limits, prices and markets: the theorems at concrete values.
use veil_vault.Base.{
  ℕ, ◌+◌, ◌*◌, ◌^◌, ◌≤◌, ◌<◌, ◌≡◌, ◌↔◌, ◌⊎◌, refl, true, LendingError, Error, ok, err, arith,
}
use veil_vault.Int.{pos, negsuc}
use veil_vault.Prices.{PriceUpdate, pow10, scale_price, get_pyth_price}
use veil_vault.Prices.Scaling.{get_pyth_price-checks}
use veil_vault.Reserve
use veil_vault.Reserve.{Reserve, deposit_liquidity}
use veil_vault.Reserve.Config.{InitReserveConfigParams, validate, segment, borrow_rate}
use veil_vault.Reserve.Config.Init.{IsValid, validate_iff}
use veil_vault.Reserve.Config.Rate.{curve, borrow_rate-eq-curve}
use veil_vault.Reserve.Liquidity.{ReserveLiquidity}
use veil_vault.Reserve.Limits.{borrow-past-limit}
use veil_vault.Tests.ReserveTests.{curved, tokens, pool}

pub curved-IsValid : IsValid curved
curved-IsValid = record {
  ltv = omega arith;
  threshold = omega arith;
  rates = omega arith;
  rates' = omega arith;
  utilization = omega arith;
  fee = omega arith;
}

validate_iff_example : (validate curved ≡ ok tt) ↔ IsValid curved
validate_iff_example = (validate_iff curved).0

abbrev pub params : InitReserveConfigParams
params = record {
  status = 0;
  min_borrow_rate_bps = 100;
  optimal_borrow_rate_bps = 500;
  max_borrow_rate_bps = 2_000;
  optimal_utilization_bps = 8_000;
  loan_to_value_pct = 70;
  liquidation_threshold_pct = 80;
  liquidation_bonus_pct = 500;
  deposit_limit = 20_000;
  borrow_limit = 4_500;
  protocol_fee = 500;
  pyth_oracle = 77;
}

rate_at_40 : borrow_rate curved 4_000 ≡ ok 300
unfolding borrow_rate segment
rate_at_40 = refl

rate_at_90 : borrow_rate curved 9_000 ≡ ok 1_250
unfolding borrow_rate segment
rate_at_90 = refl

borrow_rate-eq-curve_example : borrow_rate curved 9_000 ≡ ok (curve curved 9_000)
borrow_rate-eq-curve_example =
    borrow_rate-eq-curve curved curved-IsValid (omega arith) 9_000 (omega arith)

abbrev lent : ReserveLiquidity
lent = record tokens { borrowed_amount_sf = 4_100; available_amount = 5_900 }

abbrev half_returned : ReserveLiquidity
half_returned = record tokens { borrowed_amount_sf = 4_050; available_amount = 5_950 }

abbrev lent_out : ReserveLiquidity
lent_out = record tokens { available_amount = 5_000; borrowed_amount_sf = 5_000 }

-- 4000 lent out and a limit of 4500: a loan of 1000 is granted.
borrow-past-limit_example :
    (r' : Reserve) × (Reserve.borrow 1_000 pool ≡ ok r')
    × (r' ≡ record pool { liquidity = lent_out })
    × ((r'.liquidity.borrowed_amount_sf < r'.config.borrow_limit)
        ⊎ ((b : ℕ) → Reserve.borrow b r' ≡ err (Error.lending LendingError.borrow_limit_exceeded)))
borrow-past-limit_example = borrow-past-limit 1_000 pool (omega arith) (omega arith) (omega arith)

-- A price of 1.50 with an interval of 0.01, 30 seconds old.
abbrev message : PriceUpdate
message = record {
  verified_full = true;
  price = pos 150_000_000;
  conf = 1_000_000;
  exponent = negsuc 7;
  publish_time = pos 1_000_000;
}

get_pyth_price-checks_example :
    (true ≡ true)
    × (pos 1_000_000 ≡ pos 1_000_000)
    × (1_000_030 + 0 ≤ 0 + 1_000_000 + 60)
    × (0 < 150_000_000)
    × (1_000_000 * 50 ≤ 150_000_000)
    × (1_500_000_000_000 * 10 ^ 8 ≤ 150_000_000 * 1_000_000_000_000 * 10 ^ 0)
    × (150_000_000 * 1_000_000_000_000 * 10 ^ 0 < (1_500_000_000_000 + 1) * 10 ^ 8)
unfolding get_pyth_price scale_price pow10
get_pyth_price-checks_example =
    get_pyth_price-checks message 60 (pos 1_000_030) (pos 1_000_000) 1_500_000_000_000 (omega arith)
      (omega arith) refl
