-- ===== src/Prices.antt =====
-- programs/veilvault/src/utils/prices.rs: a Pyth price account to a price in USD scaled by
-- `rate_scale`. Deserialisation is the oracle SDK's, so the account comes here as the message
-- that it yields (`none` where it fails), with the flag that the verification level is full.
pub mod Scaling
use veil_vault.Base.{
  ℕ, ◌+◌, ◌-◌, ◌*◌, ◌^◌, Bool, Option, none, some, LendingError, Error, Result, ok, err, require,
  ok_or, or_panic, ◌>>=◌, ◌>>◌, min, ltb, leb, ◌==◌, if◌then◌else◌, checked_mul, checked_div,
  ◌and_then◌,
}
use veil_vault.Int.{ℤ, pos, pos_part, neg_part, leb_ℤ, ltb_ℤ, saturating_sub_ℤ}
use veil_vault.Constants.{rate_scale}

abbrev pub confidence_factor : ℕ
confidence_factor = 50

-- `PriceUpdateV2`, as far as it is read: an i64 price, its u64 confidence, an i32 exponent.
pub record PriceUpdate : Type 0 where
  pub verified_full : Bool
  pub price : ℤ
  pub conf : ℕ
  pub exponent : ℤ
  pub publish_time : ℤ

-- `10u128.pow(e)`, which panics where it overflows.
unfoldable pub pow10 : ℕ → Result ℕ
pow10 e = or_panic (if ltb (10 ^ e) (2 ^ 128) then some (10 ^ e) else none)

-- The exponent's sign decides between a product and a quotient that rounds down.
unfoldable pub scale_price : ℕ → ℤ → Result ℕ
unfolding pow10
scale_price price exponent = do
  p ← ok_or (checked_mul 128 price rate_scale) LendingError.math_overflow
  scale ← pow10 (pos_part exponent + neg_part exponent)
  ok_or (if ltb_ℤ exponent (pos 0) then checked_div p scale else checked_mul 128 p scale)
      LendingError.math_overflow

unfoldable pub get_pyth_price : Option PriceUpdate → ℕ → ℤ → Result (ℕ × ℤ)
unfolding scale_price
get_pyth_price none max_age_secs current_timestamp =
    err (Error.lending LendingError.price_not_valid)
get_pyth_price (some u) max_age_secs current_timestamp = do
  require u.verified_full LendingError.price_not_valid
  require (leb_ℤ (saturating_sub_ℤ current_timestamp u.publish_time) (pos max_age_secs))
      LendingError.price_stale
  require (ltb_ℤ (pos 0) u.price) LendingError.price_not_valid
  let price_u64 = pos_part u.price
  require (leb (min (u.conf * confidence_factor) (2 ^ 64 - 1)) price_u64)
      LendingError.price_confidence_too_wide
  price_sf ← scale_price price_u64 u.exponent
  ok (price_sf, u.publish_time)
