-- ===== src/Reserve/Collateral/Rounding.antt =====
-- The exchange of cTokens rounds in favour of the pool, in both directions.
use veil_vault.Base.{ℕ, ◌*◌, ◌/◌, ◌%◌, ◌^◌, ◌≤◌, ◌≡◌, ◌≢◌, ok, arith, le_of_mul_le}
use veil_vault.Reserve.Collateral.{
  CollateralExchangeRate, collateral_to_liquidity, liquidity_to_collateral,
}

cast_div_le : (x m : ℕ) → x / m % 2 ^ 64 * m ≤ x
cast_div_le x m =
    let y = x / m in
    let small : y % 2 ^ 64 ≤ y = omega arith in let bound : y * m ≤ x = omega arith in grind arith

-- A successful exchange is the exact quotient, rounded down and cast to 64 bits, at a rate
-- whose divisor is not 0.
pub to_collateral_lem :
    (e : CollateralExchangeRate) (a c : ℕ)
    → liquidity_to_collateral e a ≡ ok c
    → (c ≡ a * e.collateral_supply / e.total_liquidity % 2 ^ 64) × (e.total_liquidity ≢ 0)
unfolding liquidity_to_collateral
to_collateral_lem e a c h = ground arith

pub to_liquidity_lem :
    (e : CollateralExchangeRate) (c a : ℕ)
    → collateral_to_liquidity e c ≡ ok a
    → (a ≡ c * e.total_liquidity / e.collateral_supply % 2 ^ 64) × (e.collateral_supply ≢ 0)
unfolding collateral_to_liquidity
to_liquidity_lem e c a h = ground arith

-- The cTokens for an amount, and the amount for cTokens, are at most worth what is given.
pub to_collateral-le :
    (e : CollateralExchangeRate) (a c : ℕ)
    → liquidity_to_collateral e a ≡ ok c
    → c * e.total_liquidity ≤ a * e.collateral_supply
to_collateral-le e a c h =
    rw ((to_collateral_lem e a c h).0) (cast_div_le (a * e.collateral_supply) e.total_liquidity)

pub to_liquidity-le :
    (e : CollateralExchangeRate) (c a : ℕ)
    → collateral_to_liquidity e c ≡ ok a
    → a * e.collateral_supply ≤ c * e.total_liquidity
to_liquidity-le e c a h =
    rw ((to_liquidity_lem e c a h).0) (cast_div_le (c * e.total_liquidity) e.collateral_supply)

-- Exchanging an amount into cTokens and back at one rate never returns more than was put in,
-- whatever the rate.
pub exchange_round_trip :
    (e : CollateralExchangeRate) (a c a' : ℕ)
    → liquidity_to_collateral e a ≡ ok c
    → collateral_to_liquidity e c ≡ ok a'
    → a' ≤ a
exchange_round_trip e a c a' h k =
    le_of_mul_le a' a e.collateral_supply (to_liquidity_lem e c a' k).1
      (omega (arith, to_collateral-le e a c h, to_liquidity-le e c a' k))
