-- ===== src/Instructions/Withdraw.antt =====
-- programs/veilvault/src/instructions/withdraw.rs: cTokens burnt, underlying tokens paid out.
use veil_vault.Base.{
  ℕ, not, [], ◌∷◌, LendingError, Result, ok, require, or_failed, or_missing, ◌>>=◌, ◌>>◌, ltb,
}
use veil_vault.Constants.{Pubkey}
use veil_vault.Market.{LendingMarket, is_paused}
use veil_vault.Reserve.{Reserve, accrue_interest, redeem_collateral}
use veil_vault.Reserve.Config.{is_active}
use veil_vault.Runtime.{
  Clock, Runtime, World, text, key, put_reserve, put_tokens, check_seeds, check_market_seeds,
  check_token_mint, check_token_owner, reserve_seeds,
}

pub record WithdrawAccounts : Type 0 where
  pub depositor : Pubkey
  pub lending_market : Pubkey
  pub reserve : Pubkey
  pub reserve_mint : Pubkey
  pub liquidity_vault : Pubkey
  pub collateral_mint : Pubkey
  pub user_collateral_account : Pubkey
  pub user_token_account : Pubkey

-- The reserve's part: accrue, then redeem.
unfoldable pub withdraw_reserve : ℕ → ℕ → Reserve → Result (Reserve × ℕ)
withdraw_reserve slot collateral_amount r = do
  require (is_active r.config) LendingError.invalid_config
  accrued ← accrue_interest slot r
  redeem_collateral collateral_amount accrued

module _ {T : Type 0} (rt : Runtime T) where
  unfoldable pub withdraw_check : WithdrawAccounts → LendingMarket → T → Result (Unit {0})
  withdraw_check a m t = do
    check_market_seeds rt m.owner m a.lending_market
    require (not (is_paused m)) LendingError.invalid_config
    check_seeds rt (reserve_seeds a.lending_market a.reserve_mint) a.reserve
    check_seeds rt (text "liquidity_vault" ∷ key a.reserve ∷ []) a.liquidity_vault
    check_seeds rt (text "collateral_mint" ∷ key a.reserve ∷ []) a.collateral_mint
    check_token_mint rt t a.user_collateral_account a.collateral_mint
    check_token_owner rt t a.user_collateral_account a.depositor
    check_token_mint rt t a.user_token_account a.reserve_mint
    check_token_owner rt t a.user_token_account a.depositor

  unfoldable pub withdraw : WithdrawAccounts → ℕ → Clock → World T → Result (World T)
  withdraw a collateral_amount clock w = do
    m ← or_missing (w.markets a.lending_market)
    r ← or_missing (w.reserves a.reserve)
    decimals ← or_missing (rt.mint_decimals w.tokens a.reserve_mint)
    withdraw_check a m w.tokens
    require (ltb 0 collateral_amount) LendingError.invalid_amount
    (r', liquidity_amount) ← withdraw_reserve clock.slot collateral_amount r
    t ←
        or_failed (
          rt.burn a.collateral_mint a.user_collateral_account a.depositor collateral_amount
            w.tokens)
    t' ← or_failed (
        rt.transfer_checked a.liquidity_vault a.reserve_mint a.user_token_account a.lending_market
          liquidity_amount decimals t)
    ok (put_tokens t' (put_reserve a.reserve r' w))
