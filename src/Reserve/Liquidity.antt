-- ===== src/Reserve/Liquidity.antt =====
-- programs/veilvault/src/state/reserve.rs, `ReserveLiquidity`: what a pool holds, what is lent
-- out, the interest index and the fees. `price_last_updated_ts` is a unix timestamp (i64).
pub mod Supply
pub mod Interest
use veil_vault.Base.{
  ℕ, ◌-◌, ◌*◌, ◌/◌, LendingError, Result, ok, require, ok_or, or_panic, unwrap_or, ◌>>=◌, ◌>>◌, ltb,
  leb, ◌==◌, if◌then◌else◌, checked_add, checked_sub, checked_mul, checked_div, ◌and_then◌,
}
use veil_vault.Int.{ℤ, pos}
use veil_vault.Constants.{Pubkey, rate_scale, slots_per_year, bps_scaler, percent_scaler}

pub record ReserveLiquidity : Type 0 where
  pub borrowed_amount_sf : ℕ
  pub cumulative_borrow_rate_sf : ℕ
  pub accumulated_protocol_fees : ℕ
  pub market_price_sf : ℕ
  pub mint : Pubkey
  pub supply_vault : Pubkey
  pub fee_vault : Pubkey
  pub available_amount : ℕ
  pub price_last_updated_ts : ℤ

pub record NewReserveLiquidityParams : Type 0 where
  pub mint : Pubkey
  pub supply_vault : Pubkey
  pub fee_vault : Pubkey

abbrev pub liquidity_default : ReserveLiquidity
liquidity_default = record {
  borrowed_amount_sf = 0;
  cumulative_borrow_rate_sf = rate_scale;
  accumulated_protocol_fees = 0;
  market_price_sf = 0;
  mint = 0;
  supply_vault = 0;
  fee_vault = 0;
  available_amount = 0;
  price_last_updated_ts = pos 0;
}

unfoldable pub init : NewReserveLiquidityParams → ReserveLiquidity → ReserveLiquidity
init p l = record {
  borrowed_amount_sf = 0;
  cumulative_borrow_rate_sf = rate_scale;
  accumulated_protocol_fees = 0;
  market_price_sf = 0;
  mint = p.mint;
  supply_vault = p.supply_vault;
  fee_vault = p.fee_vault;
  available_amount = 0;
  price_last_updated_ts = pos 0;
}

unfoldable pub deposit : ℕ → ReserveLiquidity → Result ReserveLiquidity
deposit amount l = do
  available ← ok_or (checked_add 64 l.available_amount amount) LendingError.math_overflow
  ok (record l { available_amount = available })

unfoldable pub borrow : ℕ → ReserveLiquidity → Result ReserveLiquidity
borrow amount l = do
  require (leb amount l.available_amount) LendingError.insufficient_liquidity
  available ← ok_or (checked_sub l.available_amount amount) LendingError.math_overflow
  borrowed ← ok_or (checked_add 128 l.borrowed_amount_sf amount) LendingError.math_overflow
  ok (record l { available_amount = available; borrowed_amount_sf = borrowed })

unfoldable pub repay : ℕ → ReserveLiquidity → Result ReserveLiquidity
repay amount l = do
  borrowed ← ok_or (checked_sub l.borrowed_amount_sf amount) LendingError.math_overflow
  available ← ok_or (checked_add 64 l.available_amount amount) LendingError.math_overflow
  ok (record l { borrowed_amount_sf = borrowed; available_amount = available })

unfoldable pub withdraw : ℕ → ReserveLiquidity → Result ReserveLiquidity
withdraw amount l = do
  require (leb amount l.available_amount) LendingError.insufficient_liquidity
  available ← ok_or (checked_sub l.available_amount amount) LendingError.math_overflow
  ok (record l { available_amount = available })

-- The interest of `slot_elapsed` slots, as a fraction scaled by `rate_scale`.
unfoldable pub accrued_rate : ℕ → ℕ → Result ℕ
accrued_rate borrow_rate slot_elapsed =
    ok_or
      (checked_mul 128 borrow_rate slot_elapsed and_then λ m.
        checked_mul 128 m rate_scale and_then λ m.
        checked_div m slots_per_year and_then λ m. checked_div m bps_scaler)
      LendingError.math_overflow

-- `rate * amount / rate_scale`
unfoldable pub scaled_by_rate : ℕ → ℕ → Result ℕ
scaled_by_rate rate amount =
    ok_or (checked_mul 128 rate amount and_then λ m. checked_div m rate_scale)
      LendingError.math_overflow

unfoldable pub accured_interest : ℕ → ℕ → ℕ → ReserveLiquidity → Result ReserveLiquidity
accured_interest borrow_rate slot_elapsed protocol_fee l = do
  require (ltb 0 slot_elapsed) LendingError.zero_slots_elapsed
  require (ltb 0 borrow_rate) LendingError.borrow_rate_zero_found
  rate ← accrued_rate borrow_rate slot_elapsed
  debt_accured ← scaled_by_rate rate l.borrowed_amount_sf
  borrowed ← ok_or (checked_add 128 l.borrowed_amount_sf debt_accured) LendingError.math_overflow
  fee ←
      ok_or (checked_mul 128 debt_accured protocol_fee and_then λ f. checked_div f bps_scaler)
        LendingError.math_overflow
  fees ← ok_or (checked_add 128 l.accumulated_protocol_fees fee) LendingError.math_overflow
  rate_accured ← scaled_by_rate rate l.cumulative_borrow_rate_sf
  cumulative ←
      ok_or (checked_add 128 l.cumulative_borrow_rate_sf rate_accured) LendingError.math_overflow
  ok (record l {
    borrowed_amount_sf = borrowed;
    accumulated_protocol_fees = fees;
    cumulative_borrow_rate_sf = cumulative;
  })

unfoldable pub total_supply : ReserveLiquidity → Result ℕ
total_supply l =
    ok_or
      (checked_add 128 l.available_amount l.borrowed_amount_sf and_then λ sum.
        checked_sub sum l.accumulated_protocol_fees)
      LendingError.math_overflow

-- In percent. The product is unchecked in the source, so it panics where it overflows.
unfoldable pub utilization_rate : ReserveLiquidity → Result ℕ
unfolding total_supply
utilization_rate l =
    let total = unwrap_or (total_supply l) 0 in
    if total == 0 then ok 0 else do
      scaled ← or_panic (checked_mul 128 l.borrowed_amount_sf percent_scaler)
      ok_or (checked_div scaled total) LendingError.math_overflow
