-- ===== src/Reserve.antt =====
-- programs/veilvault/src/state/reserve.rs, `Reserve`: a pool of one asset, composed of its
-- liquidity, configuration and cToken supply. Methods take the reserve and return the new one.
pub mod Config
pub mod Collateral
pub mod Liquidity
pub mod Shares
pub mod Accrual
pub mod Limits
pub mod Completion
use veil_vault.Base.{
  ℕ, ◌*◌, Bool, not, LendingError, Result, ok, require, or_panic, unwrap_or, ◌>>=◌, ◌>>◌, ltb, leb,
  ◌==◌, if◌then◌else◌, checked_mul, saturating_add, saturating_sub, cast,
}
use veil_vault.Constants.{Pubkey}
use Config.{ReserveConfig, config_default, borrow_rate}
use Collateral
use Collateral.{
  ReserveCollateral, CollateralExchangeRate, collateral_default, exchange_rate,
  collateral_to_liquidity, liquidity_to_collateral,
}
use Liquidity
use Liquidity.{ReserveLiquidity, liquidity_default, total_supply, accured_interest}

abbrev pub reserve_version : ℕ
reserve_version = 1

pub record Reserve : Type 0 where
  pub liquidity : ReserveLiquidity
  pub config : ReserveConfig
  pub collateral : ReserveCollateral
  pub version : ℕ
  pub last_update_slot : ℕ
  pub lending_market : Pubkey
  pub bump : ℕ

abbrev pub reserve_default : Reserve
reserve_default = record {
  liquidity = liquidity_default;
  config = config_default;
  collateral = collateral_default;
  version = 0;
  last_update_slot = 0;
  lending_market = 0;
  bump = 0;
}

unfoldable pub collateral_exchange_rate : Reserve → CollateralExchangeRate
collateral_exchange_rate r = exchange_rate r.collateral (unwrap_or (total_supply r.liquidity) 0)

unfoldable pub utilization_rate : Reserve → Result ℕ
utilization_rate r = Liquidity.utilization_rate r.liquidity

-- Percent to basis points by an unchecked product, then a cast to `u16`.
unfoldable pub current_borrow_rate : Reserve → Result ℕ
current_borrow_rate r = do
  utilization ← Liquidity.utilization_rate r.liquidity
  utilization_bps ← or_panic (checked_mul 128 utilization 100)
  borrow_rate r.config (cast 16 utilization_bps)

unfoldable pub deposit_limit_crossed : Reserve → Bool
deposit_limit_crossed r = leb r.config.deposit_limit (unwrap_or (total_supply r.liquidity) 0)

unfoldable pub borrow_limit_crossed : Reserve → Bool
borrow_limit_crossed r = leb r.config.borrow_limit r.liquidity.borrowed_amount_sf

-- The new reserve and the cTokens to mint.
unfoldable pub deposit_liquidity : ℕ → Reserve → Result (Reserve × ℕ)
unfolding collateral_exchange_rate
deposit_liquidity amount r = do
  total ← total_supply r.liquidity
  require (leb (saturating_add 128 total amount) r.config.deposit_limit)
      LendingError.deposit_limit_exceeded
  let rate = collateral_exchange_rate r
  collateral_amount ← liquidity_to_collateral rate amount
  liquidity ← Liquidity.deposit amount r.liquidity
  collateral ← Collateral.mint collateral_amount r.collateral
  ok (record r { liquidity = liquidity; collateral = collateral }, collateral_amount)

-- The new reserve and the underlying tokens to pay out.
unfoldable pub redeem_collateral : ℕ → Reserve → Result (Reserve × ℕ)
unfolding collateral_exchange_rate
redeem_collateral collateral_amount r = do
  let rate = collateral_exchange_rate r
  liquidity_amount ← collateral_to_liquidity rate collateral_amount
  collateral ← Collateral.burn collateral_amount r.collateral
  liquidity ← Liquidity.withdraw liquidity_amount r.liquidity
  ok (record r { liquidity = liquidity; collateral = collateral }, liquidity_amount)

unfoldable pub borrow : ℕ → Reserve → Result Reserve
unfolding borrow_limit_crossed
borrow amount r = do
  require (not (borrow_limit_crossed r)) LendingError.borrow_limit_exceeded
  liquidity ← Liquidity.borrow amount r.liquidity
  ok (record r { liquidity = liquidity })

unfoldable pub repay : ℕ → Reserve → Result Reserve
repay amount r = do
  liquidity ← Liquidity.repay amount r.liquidity
  ok (record r { liquidity = liquidity })

unfoldable pub accrue_interest : ℕ → Reserve → Result Reserve
unfolding current_borrow_rate
accrue_interest current_slot r =
    let slots_elapsed = saturating_sub current_slot r.last_update_slot in
    if slots_elapsed == 0 then ok r else do
      rate ← current_borrow_rate r
      liquidity ←
          (if ltb 0 rate
            then accured_interest rate slots_elapsed r.config.protocol_fee r.liquidity
            else ok r.liquidity)
      ok (record r { liquidity = liquidity; last_update_slot = current_slot })
