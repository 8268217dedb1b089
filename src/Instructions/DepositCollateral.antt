-- ===== src/Instructions/DepositCollateral.antt =====
-- programs/veilvault/src/instructions/deposit_collateral.rs: cTokens locked in an obligation.
use veil_vault.Base.{
  ℕ, not, [], ◌∷◌, LendingError, Result, ok, require, or_failed, or_missing, ◌>>=◌, ◌>>◌, ltb,
}
use veil_vault.Constants.{Pubkey}
use veil_vault.Market.{LendingMarket, is_paused}
use veil_vault.Reserve.Config.{is_active}
use veil_vault.Obligation
use veil_vault.Runtime.{
  Clock, Runtime, World, text, key, put_obligation, put_tokens, check_seeds, check_market_seeds,
  check_token_mint, check_token_owner, reserve_seeds, obligation_seeds,
}

pub record DepositCollateralAccounts : Type 0 where
  pub depositor : Pubkey
  pub lending_market : Pubkey
  pub reserve : Pubkey
  pub reserve_mint : Pubkey
  pub collateral_mint : Pubkey
  pub user_collateral_account : Pubkey
  pub collateral_supply_vault : Pubkey
  pub obligation : Pubkey

module _ {T : Type 0} (rt : Runtime T) where
  unfoldable pub deposit_collateral_check :
      DepositCollateralAccounts → LendingMarket → T → Result (Unit {0})
  deposit_collateral_check a m t = do
    check_market_seeds rt m.owner m a.lending_market
    require (not (is_paused m)) LendingError.invalid_config
    check_seeds rt (reserve_seeds a.lending_market a.reserve_mint) a.reserve
    check_seeds rt (text "collateral_mint" ∷ key a.reserve ∷ []) a.collateral_mint
    check_token_mint rt t a.user_collateral_account a.collateral_mint
    check_token_owner rt t a.user_collateral_account a.depositor
    check_seeds rt (text "collateral_supply" ∷ key a.reserve ∷ []) a.collateral_supply_vault
    check_seeds rt (obligation_seeds a.lending_market a.depositor) a.obligation

  unfoldable pub deposit_collateral :
      DepositCollateralAccounts → ℕ → Clock → World T → Result (World T)
  deposit_collateral a collateral_amount clock w = do
    m ← or_missing (w.markets a.lending_market)
    r ← or_missing (w.reserves a.reserve)
    decimals ← or_missing (rt.mint_decimals w.tokens a.collateral_mint)
    o ← or_missing (w.obligations a.obligation)
    deposit_collateral_check a m w.tokens
    require (ltb 0 collateral_amount) LendingError.invalid_amount
    require (is_active r.config) LendingError.invalid_config
    o' ← Obligation.deposit a.reserve collateral_amount o
    t ← or_failed (
        rt.transfer_checked a.user_collateral_account a.collateral_mint a.collateral_supply_vault
          a.depositor collateral_amount decimals w.tokens)
    ok (put_tokens t (put_obligation a.obligation o' w))
