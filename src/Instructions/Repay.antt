-- ===== src/Instructions/Repay.antt =====
-- programs/veilvault/src/instructions/repay.rs: tokens back into the vault, debt reduced. This is
-- open while the market is paused.
use veil_vault.Base.{
  ℕ, [], ◌∷◌, LendingError, Result, ok, require, or_failed, or_missing, ◌>>=◌, ◌>>◌, ltb,
}
use veil_vault.Constants.{Pubkey}
use veil_vault.Market.{LendingMarket}
use veil_vault.Reserve
use veil_vault.Reserve.{Reserve}
use veil_vault.Reserve.Config.{is_active}
use veil_vault.Obligation
use veil_vault.Obligation.{Obligation, find_borrow}
use veil_vault.Runtime.{
  Clock, Runtime, World, text, key, put_reserve, put_obligation, put_tokens, check_seeds,
  check_market_seeds, check_token_mint, check_token_owner, reserve_seeds, obligation_seeds,
}

pub record RepayAccounts : Type 0 where
  pub borrower : Pubkey
  pub lending_market : Pubkey
  pub obligation : Pubkey
  pub reserve : Pubkey
  pub reserve_mint : Pubkey
  pub liquidity_vault : Pubkey
  pub user_token_account : Pubkey

-- The reserve after the repayment, and its index.
unfoldable pub repay_reserve : ℕ → ℕ → Reserve → Result (Reserve × ℕ)
repay_reserve slot amount r = do
  require (is_active r.config) LendingError.invalid_config
  accrued ← Reserve.accrue_interest slot r
  let rate = accrued.liquidity.cumulative_borrow_rate_sf
  r' ← Reserve.repay amount accrued
  ok (r', rate)

unfoldable pub repay_obligation : Pubkey → (amount index : ℕ) → Obligation → Result Obligation
repay_obligation reserve_key amount index o = do
  slot_idx ← find_borrow reserve_key o
  accrued ← Obligation.accrue_interest slot_idx index o
  Obligation.repay reserve_key amount accrued

module _ {T : Type 0} (rt : Runtime T) where
  unfoldable pub repay_check : RepayAccounts → LendingMarket → T → Result (Unit {0})
  repay_check a m t = do
    check_market_seeds rt m.owner m a.lending_market
    check_seeds rt (obligation_seeds a.lending_market a.borrower) a.obligation
    check_seeds rt (reserve_seeds a.lending_market a.reserve_mint) a.reserve
    check_seeds rt (text "liquidity_vault" ∷ key a.reserve ∷ []) a.liquidity_vault
    check_token_mint rt t a.user_token_account a.reserve_mint
    check_token_owner rt t a.user_token_account a.borrower

  unfoldable pub repay : RepayAccounts → ℕ → Clock → World T → Result (World T)
  repay a amount clock w = do
    m ← or_missing (w.markets a.lending_market)
    o ← or_missing (w.obligations a.obligation)
    r ← or_missing (w.reserves a.reserve)
    decimals ← or_missing (rt.mint_decimals w.tokens a.reserve_mint)
    repay_check a m w.tokens
    require (ltb 0 amount) LendingError.invalid_amount
    (r', index) ← repay_reserve clock.slot amount r
    o' ← repay_obligation a.reserve amount index o
    t ← or_failed (
        rt.transfer_checked a.user_token_account a.reserve_mint a.liquidity_vault a.borrower amount
          decimals w.tokens)
    ok (put_tokens t (put_obligation a.obligation o' (put_reserve a.reserve r' w)))
