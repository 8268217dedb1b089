-- ===== src/Reserve/Config.antt =====
-- programs/veilvault/src/state/reserve.rs, `ReserveConfig`: limits, the interest curve and risk
-- parameters. Fields of widths u8, u16 and u64 are numbers; the padding byte is not modelled.
pub mod Rate
pub mod Init
use veil_vault.Base.{
  ℕ, ◌-◌, ◌/◌, Bool, ◌&&◌, LendingError, Result, ok, require, ok_or, ◌>>=◌, ◌>>◌, ltb, leb, ◌==◌,
  if◌then◌else◌, checked_add, checked_mul, checked_div, saturating_sub, cast,
}
use veil_vault.Constants.{
  Pubkey, bps_scaler, max_liquidation_threshold_pct, max_utilization_bps, max_protocol_fee_bps,
}

pub record ReserveConfig : Type 0 where
  pub deposit_limit : ℕ
  pub borrow_limit : ℕ
  pub min_borrow_rate_bps : ℕ
  pub optimal_borrow_rate_bps : ℕ
  pub max_borrow_rate_bps : ℕ
  pub optimal_utilization_bps : ℕ
  pub liquidation_bonus_pct : ℕ
  pub protocol_fee : ℕ
  pub status : ℕ
  pub loan_to_value_pct : ℕ
  pub liquidation_threshold_pct : ℕ
  pub pyth_oracle : Pubkey

pub record InitReserveConfigParams : Type 0 where
  pub status : ℕ
  pub min_borrow_rate_bps : ℕ
  pub optimal_borrow_rate_bps : ℕ
  pub max_borrow_rate_bps : ℕ
  pub optimal_utilization_bps : ℕ
  pub loan_to_value_pct : ℕ
  pub liquidation_threshold_pct : ℕ
  pub liquidation_bonus_pct : ℕ
  pub deposit_limit : ℕ
  pub borrow_limit : ℕ
  pub protocol_fee : ℕ
  pub pyth_oracle : Pubkey

abbrev pub config_default : ReserveConfig
config_default = record {
  deposit_limit = 0;
  borrow_limit = 0;
  min_borrow_rate_bps = 0;
  optimal_borrow_rate_bps = 0;
  max_borrow_rate_bps = 0;
  optimal_utilization_bps = 0;
  liquidation_bonus_pct = 0;
  protocol_fee = 0;
  status = 0;
  loan_to_value_pct = 0;
  liquidation_threshold_pct = 0;
  pyth_oracle = 0;
}

unfoldable pub validate : ReserveConfig → Result (Unit {0})
validate c = do
  require (ltb c.loan_to_value_pct c.liquidation_threshold_pct) LendingError.invalid_config
  require (leb c.liquidation_threshold_pct max_liquidation_threshold_pct)
      LendingError.invalid_config
  require
      (leb c.min_borrow_rate_bps c.optimal_borrow_rate_bps
        && leb c.optimal_borrow_rate_bps c.max_borrow_rate_bps)
      LendingError.invalid_config
  require (leb c.optimal_utilization_bps max_utilization_bps) LendingError.invalid_config
  require (leb c.protocol_fee max_protocol_fee_bps) LendingError.invalid_config
  ok tt

-- The parameters are written first and validated after, as one new configuration.
unfoldable pub init : InitReserveConfigParams → ReserveConfig → Result ReserveConfig
unfolding validate
init p self = do
  let c : ReserveConfig = record {
    deposit_limit = p.deposit_limit;
    borrow_limit = p.borrow_limit;
    min_borrow_rate_bps = p.min_borrow_rate_bps;
    optimal_borrow_rate_bps = p.optimal_borrow_rate_bps;
    max_borrow_rate_bps = p.max_borrow_rate_bps;
    optimal_utilization_bps = p.optimal_utilization_bps;
    liquidation_bonus_pct = p.liquidation_bonus_pct;
    protocol_fee = p.protocol_fee;
    status = p.status;
    loan_to_value_pct = p.loan_to_value_pct;
    liquidation_threshold_pct = p.liquidation_threshold_pct;
    pyth_oracle = p.pyth_oracle;
  }
  validate c
  ok c

unfoldable pub update : ReserveConfig → ReserveConfig → Result ReserveConfig
unfolding validate
update new_config self = do validate new_config; ok new_config

unfoldable pub is_active : ReserveConfig → Bool
is_active c = c.status == 0

unfoldable pub is_frozen : ReserveConfig → Bool
is_frozen c = c.status == 1

-- One segment of the curve, in `u64`: `base + run * rise / width`, flat where the width is 0.
unfoldable pub segment : (base run rise width : ℕ) → Result ℕ
segment base run rise width = do
  slope_numerator ← ok_or (checked_mul 64 run rise) LendingError.math_overflow
  slope ←
      (if width == 0
        then ok 0
        else ok_or (checked_div slope_numerator width) LendingError.math_overflow)
  ok_or (checked_add 64 base slope) LendingError.math_overflow

-- The kinked curve. The result is cast to `u16`.
unfoldable pub borrow_rate : ReserveConfig → ℕ → Result ℕ
borrow_rate c util = do
  rate ←
      (if leb util c.optimal_utilization_bps
        then segment c.min_borrow_rate_bps util
            (saturating_sub c.optimal_borrow_rate_bps c.min_borrow_rate_bps)
            c.optimal_utilization_bps
        else segment c.optimal_borrow_rate_bps (saturating_sub util c.optimal_utilization_bps)
            (saturating_sub c.max_borrow_rate_bps c.optimal_borrow_rate_bps)
            (saturating_sub bps_scaler c.optimal_utilization_bps))
  ok (cast 16 rate)
