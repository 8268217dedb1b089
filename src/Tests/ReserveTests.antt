-- ===== src/Tests/ReserveTests.antt =====
-- A pool in use, and the theorems on reserves, oracle prices and markets at it.
use veil_vault.Base.{◌+◌, ◌*◌, ◌≤◌, ◌≡◌, refl, inl, ok, arith}
use veil_vault.Reserve
use veil_vault.Reserve.{
  Reserve, collateral_exchange_rate, current_borrow_rate, borrow_limit_crossed, deposit_liquidity,
  redeem_collateral,
}
use veil_vault.Reserve.Config.{ReserveConfig, config_default, segment, borrow_rate}
use veil_vault.Reserve.Collateral
use veil_vault.Reserve.Collateral.{
  ReserveCollateral, CollateralExchangeRate, exchange_rate, collateral_to_liquidity,
  liquidity_to_collateral,
}
use veil_vault.Reserve.Liquidity
use veil_vault.Reserve.Liquidity.{
  ReserveLiquidity, liquidity_default, total_supply, utilization_rate, accrued_rate, scaled_by_rate,
  accured_interest,
}
use veil_vault.Reserve.Liquidity.Interest.{accured_interest-grows}
use veil_vault.Reserve.Shares.{deposit-keeps-worth, redeem-keeps-worth, redeem-deposit-le}
use veil_vault.Reserve.Accrual.{Grown, accrue_interest-Grown}

abbrev pub curved : ReserveConfig
curved = record config_default {
  deposit_limit = 20_000;
  borrow_limit = 4_500;
  min_borrow_rate_bps = 100;
  optimal_borrow_rate_bps = 500;
  max_borrow_rate_bps = 2_000;
  optimal_utilization_bps = 8_000;
  liquidation_bonus_pct = 500;
  protocol_fee = 500;
  loan_to_value_pct = 70;
  liquidation_threshold_pct = 80;
  pyth_oracle = 77;
}

abbrev pub tokens : ReserveLiquidity
tokens = record liquidity_default {
  borrowed_amount_sf = 4_000;
  accumulated_protocol_fees = 10;
  market_price_sf = 2_000_000_000_000;
  available_amount = 6_000;
}

abbrev pub pool : Reserve
pool = record {
  liquidity = tokens;
  config = curved;
  collateral = record { mint_pda = 21; mint_total_supply = 5_000; supply_vault_pda = 22 };
  version = 1;
  last_update_slot = 100;
  lending_market = 1;
  bump = 255;
}

-- The pool after a deposit of 1000 tokens, for 500 cTokens.
abbrev pub fuller : Reserve
fuller = record pool {
  liquidity = record tokens { available_amount = 7_000 };
  collateral = record { mint_pda = 21; mint_total_supply = 5_500; supply_vault_pda = 22 };
}

-- And after those cTokens are redeemed, for 999 tokens.
abbrev rounded : Reserve
rounded = record pool { liquidity = record tokens { available_amount = 6_001 } }

pub deposit_run : deposit_liquidity 1_000 pool ≡ ok (fuller, 500)
unfolding deposit_liquidity total_supply Liquidity.deposit Collateral.mint liquidity_to_collateral
    exchange_rate collateral_exchange_rate
deposit_run = refl

redeem_run : redeem_collateral 500 fuller ≡ ok (rounded, 999)
unfolding redeem_collateral total_supply Liquidity.withdraw Collateral.burn collateral_to_liquidity
    exchange_rate collateral_exchange_rate
redeem_run = refl

pool_supply : total_supply tokens ≡ ok 9_990
unfolding total_supply
pool_supply = refl

pub fuller_supply : total_supply fuller.liquidity ≡ ok 10_990
unfolding total_supply
fuller_supply = refl

redeem-deposit-le_example : 999 ≤ 1_000
redeem-deposit-le_example =
    redeem-deposit-le 1_000 pool fuller rounded 500 999 10_990 (inl (omega arith)) deposit_run
      fuller_supply redeem_run

deposit-keeps-worth_example :
    (10_990 ≡ 9_990 + 1_000) × (5_500 ≡ 5_000 + 500) × (9_990 * 5_500 ≤ 10_990 * 5_000)
deposit-keeps-worth_example =
    deposit-keeps-worth 1_000 pool fuller 500 9_990 10_990 deposit_run (omega arith) pool_supply
      fuller_supply (omega arith)

redeem-keeps-worth_example :
    (10_990 ≡ 9_991 + 999) × (5_500 ≡ 5_000 + 500) × (10_990 * 5_000 ≤ 9_991 * 5_500)
redeem-keeps-worth_example =
    redeem-keeps-worth 500 fuller rounded 999 10_990 redeem_run (omega arith) fuller_supply
      (omega arith)

-- The debt is at 40% of the supply, so the rate is 300 bps. A year brings 120 tokens of interest
-- and a fee of 6.
abbrev next_year : Reserve
next_year = record pool {
  liquidity = record tokens {
    borrowed_amount_sf = 4_120;
    cumulative_borrow_rate_sf = 1_030_000_000_000;
    accumulated_protocol_fees = 16;
  };
  last_update_slot = 63_072_100;
}

year_run : accured_interest 300 63_072_000 500 tokens ≡ ok (next_year.liquidity)
unfolding accured_interest accrued_rate scaled_by_rate
year_run = refl

accrue_run : Reserve.accrue_interest 63_072_100 pool ≡ ok next_year
unfolding Reserve.accrue_interest accured_interest accrued_rate scaled_by_rate current_borrow_rate
    utilization_rate total_supply borrow_rate segment
accrue_run = refl

accrue_interest-Grown_example : Grown 63_072_100 pool next_year
accrue_interest-Grown_example =
    accrue_interest-Grown 63_072_100 pool next_year (omega arith) accrue_run

accured_interest-grows_example : 4_000 ≤ 4_120
accured_interest-grows_example =
    (accured_interest-grows 300 63_072_000 500 tokens (next_year.liquidity) (omega arith)
      year_run).0
