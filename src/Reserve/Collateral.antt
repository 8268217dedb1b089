-- ===== src/Reserve/Collateral.antt =====
-- programs/veilvault/src/state/reserve.rs, `ReserveCollateral` and `CollateralExchangeRate`: the
-- supply of cTokens and their price in the underlying token. Padding is not modelled.
pub mod Rounding
use veil_vault.Base.{
  ℕ, ◌-◌, ◌*◌, ◌/◌, ◌||◌, LendingError, Result, ok, require, ok_or, ◌>>=◌, ◌>>◌, leb, ◌==◌,
  if◌then◌else◌, checked_add, checked_sub, checked_mul, checked_div, cast, ◌and_then◌,
}
use veil_vault.Constants.{Pubkey}

pub record ReserveCollateral : Type 0 where
  pub mint_pda : Pubkey
  pub mint_total_supply : ℕ
  pub supply_vault_pda : Pubkey

pub record NewReserveCollateralParams : Type 0 where
  pub mint_pda : Pubkey
  pub supply_vault_pda : Pubkey

pub record CollateralExchangeRate : Type 0 where
  pub collateral_supply : ℕ
  pub total_liquidity : ℕ

abbrev pub collateral_default : ReserveCollateral
collateral_default = record { mint_pda = 0; mint_total_supply = 0; supply_vault_pda = 0 }

unfoldable pub init : NewReserveCollateralParams → ReserveCollateral → ReserveCollateral
init p c = record c {
  mint_pda = p.mint_pda;
  mint_total_supply = 0;
  supply_vault_pda = p.supply_vault_pda;
}

unfoldable pub mint : ℕ → ReserveCollateral → Result ReserveCollateral
mint collateral_amount c = do
  supply ← ok_or (checked_add 64 c.mint_total_supply collateral_amount) LendingError.math_overflow
  ok (record c { mint_total_supply = supply })

unfoldable pub burn : ℕ → ReserveCollateral → Result ReserveCollateral
burn collateral_amount c = do
  require (leb collateral_amount c.mint_total_supply) LendingError.insufficient_collateral
  supply ← ok_or (checked_sub c.mint_total_supply collateral_amount) LendingError.math_overflow
  ok (record c { mint_total_supply = supply })

-- An empty pool exchanges one for one.
unfoldable pub exchange_rate : ReserveCollateral → ℕ → CollateralExchangeRate
exchange_rate c total_liquidity =
    if c.mint_total_supply == 0 || total_liquidity == 0
    then record { collateral_supply = 1; total_liquidity = 1 }
    else record { collateral_supply = c.mint_total_supply; total_liquidity = total_liquidity }

unfoldable pub collateral_to_liquidity : CollateralExchangeRate → ℕ → Result ℕ
collateral_to_liquidity e collateral_amount = do
  result ←
      ok_or
        (checked_mul 128 collateral_amount e.total_liquidity and_then λ n.
          checked_div n e.collateral_supply)
        LendingError.math_overflow
  ok (cast 64 result)

unfoldable pub liquidity_to_collateral : CollateralExchangeRate → ℕ → Result ℕ
liquidity_to_collateral e liquidity_amount = do
  result ←
      ok_or
        (checked_mul 128 liquidity_amount e.collateral_supply and_then λ n.
          checked_div n e.total_liquidity)
        LendingError.math_overflow
  ok (cast 64 result)
