-- ===== src/Instructions/Deposit.antt =====
-- programs/veilvault/src/instructions/deposit.rs: underlying tokens into the vault, cTokens out.
use veil_vault.Base.{
  ℕ, not, [], ◌∷◌, LendingError, Result, ok, require, or_failed, or_missing, ◌>>=◌, ◌>>◌, ltb,
}
use veil_vault.Constants.{Pubkey}
use veil_vault.Market.{LendingMarket, is_paused}
use veil_vault.Reserve.{Reserve, accrue_interest, deposit_liquidity}
use veil_vault.Reserve.Config.{is_active}
use veil_vault.Runtime.{
  Clock, Runtime, World, text, key, put_reserve, put_tokens, check_seeds, check_market_seeds,
  check_token_mint, check_token_owner, reserve_seeds,
}

pub record DepositAccounts : Type 0 where
  pub depositor : Pubkey
  pub lending_market : Pubkey
  pub reserve : Pubkey
  pub reserve_mint : Pubkey
  pub liquidity_vault : Pubkey
  pub collateral_mint : Pubkey
  pub user_token_account : Pubkey
  pub user_collateral_account : Pubkey

-- The reserve's part: accrue, then record the deposit.
unfoldable pub deposit_reserve : ℕ → ℕ → Reserve → Result (Reserve × ℕ)
deposit_reserve slot amount r = do
  require (is_active r.config) LendingError.invalid_config
  accrued ← accrue_interest slot r
  deposit_liquidity amount accrued

module _ {T : Type 0} (rt : Runtime T) where
  -- The constraints on the accounts; the market is signed for, so a paused one is refused.
  unfoldable pub deposit_check : DepositAccounts → LendingMarket → T → Result (Unit {0})
  deposit_check a m t = do
    check_market_seeds rt m.owner m a.lending_market
    require (not (is_paused m)) LendingError.invalid_config
    check_seeds rt (reserve_seeds a.lending_market a.reserve_mint) a.reserve
    check_seeds rt (text "liquidity_vault" ∷ key a.reserve ∷ []) a.liquidity_vault
    check_seeds rt (text "collateral_mint" ∷ key a.reserve ∷ []) a.collateral_mint
    check_token_mint rt t a.user_token_account a.reserve_mint
    check_token_owner rt t a.user_token_account a.depositor
    check_token_mint rt t a.user_collateral_account a.collateral_mint
    check_token_owner rt t a.user_collateral_account a.depositor

  unfoldable pub deposit : DepositAccounts → ℕ → Clock → World T → Result (World T)
  deposit a amount clock w = do
    m ← or_missing (w.markets a.lending_market)
    r ← or_missing (w.reserves a.reserve)
    decimals ← or_missing (rt.mint_decimals w.tokens a.reserve_mint)
    deposit_check a m w.tokens
    require (ltb 0 amount) LendingError.invalid_amount
    (r', collateral_amount) ← deposit_reserve clock.slot amount r
    t ← or_failed (
        rt.transfer_checked a.user_token_account a.reserve_mint a.liquidity_vault a.depositor amount
          decimals w.tokens)
    t' ← or_failed (
        rt.mint_to a.collateral_mint a.user_collateral_account a.lending_market collateral_amount t)
    ok (put_tokens t' (put_reserve a.reserve r' w))
