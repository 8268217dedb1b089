-- ===== src/Instructions/WithdrawCollateral.antt =====
-- programs/veilvault/src/instructions/withdraw_collateral.rs: cTokens released from an
-- obligation that stays healthy.
pub mod Healthy
use Prim.Native.Nat.{max}
use veil_vault.Base.{
  ℕ, not, true, Option, none, some, List, [], ◌∷◌, LendingError, Result, ok, require, ok_or,
  or_panic, or_failed, or_missing, ◌>>=◌, ◌>>◌, ltb, leb, checked_sub, checked_mul, checked_div,
  ◌and_then◌, get_elem?, set,
}
use veil_vault.Constants.{Pubkey, rate_scale}
use veil_vault.LastUpdate.{is_slot_stale}
use veil_vault.Market.{LendingMarket, is_paused}
use veil_vault.Obligation
use veil_vault.Obligation.{Obligation, find_deposit, health_factor}
use veil_vault.Runtime.{
  Clock, Runtime, World, text, key, put_obligation, put_tokens, check_seeds, check_market_seeds,
  check_token_mint, check_token_owner, reserve_seeds, obligation_seeds,
}

pub record WithdrawCollateralAccounts : Type 0 where
  pub depositor : Pubkey
  pub lending_market : Pubkey
  pub reserve : Pubkey
  pub reserve_mint : Pubkey
  pub collateral_mint : Pubkey
  pub collateral_supply_vault : Pubkey
  pub user_collateral_account : Pubkey
  pub obligation : Pubkey

-- `if let Some(hf) = ... { require!(hf >= RATE_SCALE) }`
unfoldable pub require_healthy : Option ℕ → Result (Unit {0})
require_healthy none = ok tt
require_healthy (some hf) = require (leb rate_scale hf) LendingError.unhealthy_obligation

-- The slot's price is scaled down in proportion before the amount is taken.
unfoldable pub discount_slot : ℕ → ℕ → Obligation → Result Obligation
discount_slot i collateral_amount o = do
  d ← or_panic (get_elem? o.deposits i)
  new_deposited ←
      ok_or (checked_sub d.deposited_amount collateral_amount) LendingError.insufficient_collateral
  value ←
      ok_or
        (checked_mul 128 d.market_value_sf new_deposited and_then λ v.
          checked_div v (max (d.deposited_amount) 1))
        LendingError.math_overflow
  ok (record o { deposits = set o.deposits i (record d { market_value_sf = value }) })

unfoldable pub withdraw_obligation : Pubkey → ℕ → ℕ → Obligation → Result Obligation
unfolding discount_slot
withdraw_obligation reserve_key collateral_amount slot o = do
  require (not (is_slot_stale o.last_update slot)) LendingError.obligation_stale
  deposit_idx ← find_deposit reserve_key o
  discounted ← discount_slot deposit_idx collateral_amount o
  o' ← Obligation.withdraw reserve_key collateral_amount discounted
  hf ← health_factor o'
  require_healthy hf
  ok o'

module _ {T : Type 0} (rt : Runtime T) where
  unfoldable pub withdraw_collateral_check :
      WithdrawCollateralAccounts → LendingMarket → T → Result (Unit {0})
  withdraw_collateral_check a m t = do
    check_market_seeds rt m.owner m a.lending_market
    require (not (is_paused m)) LendingError.invalid_config
    check_seeds rt (reserve_seeds a.lending_market a.reserve_mint) a.reserve
    check_seeds rt (text "collateral_mint" ∷ key a.reserve ∷ []) a.collateral_mint
    check_seeds rt (text "collateral_supply" ∷ key a.reserve ∷ []) a.collateral_supply_vault
    check_token_mint rt t a.user_collateral_account a.collateral_mint
    check_token_owner rt t a.user_collateral_account a.depositor
    check_seeds rt (obligation_seeds a.lending_market a.depositor) a.obligation

  unfoldable pub withdraw_collateral :
      WithdrawCollateralAccounts → ℕ → Clock → World T → Result (World T)
  withdraw_collateral a collateral_amount clock w = do
    m ← or_missing (w.markets a.lending_market)
    r ← or_missing (w.reserves a.reserve)
    decimals ← or_missing (rt.mint_decimals w.tokens a.collateral_mint)
    o ← or_missing (w.obligations a.obligation)
    withdraw_collateral_check a m w.tokens
    require (ltb 0 collateral_amount) LendingError.invalid_amount
    o' ← withdraw_obligation a.reserve collateral_amount clock.slot o
    t ← or_failed (
        rt.transfer_checked a.collateral_supply_vault a.collateral_mint a.user_collateral_account
          a.lending_market collateral_amount decimals w.tokens)
    ok (put_tokens t (put_obligation a.obligation o' w))
