-- ===== src/Instructions/Borrow.antt =====
-- programs/veilvault/src/instructions/borrow.rs: tokens lent out of the vault against collateral
-- that was priced in the same slot.
pub mod Covered
use veil_vault.Base.{
  ℕ, not, Option, none, some, List, [], ◌∷◌, LendingError, Result, ok, err, require, ok_or,
  or_panic, or_failed, or_missing, ◌>>=◌, ◌>>◌, ltb, leb, checked_add, checked_mul,
}
use veil_vault.Constants.{Pubkey}
use veil_vault.LastUpdate.{is_slot_stale}
use veil_vault.Market.{LendingMarket, is_paused}
use veil_vault.Reserve
use veil_vault.Reserve.{Reserve}
use veil_vault.Reserve.Config.{is_active}
use veil_vault.Obligation
use veil_vault.Obligation.{Obligation, find_borrow, deposit_value, borrow_value}
use veil_vault.Obligation.Slots.{prefix}
use veil_vault.Runtime.{
  Clock, Runtime, World, text, key, put_reserve, put_obligation, put_tokens, check_seeds,
  check_market_seeds, check_token_mint, reserve_seeds, obligation_seeds,
}

pub record BorrowAccounts : Type 0 where
  pub borrower : Pubkey
  pub lending_market : Pubkey
  pub obligation : Pubkey
  pub reserve : Pubkey
  pub reserve_mint : Pubkey
  pub liquidity_vault : Pubkey
  pub user_token_account : Pubkey

-- The reserve's part of a loan.
unfoldable pub borrow_reserve : ℕ → ℕ → Reserve → Result Reserve
borrow_reserve slot amount r = do
  require (is_active r.config) LendingError.invalid_config
  require (ltb 0 (r.liquidity.market_price_sf)) LendingError.price_not_valid
  accrued ← Reserve.accrue_interest slot r
  Reserve.borrow amount accrued

-- `filter(active).map(value).sum()`, which panics on overflow
unfoldable pub sum_values {ℓ} : {A : Type ℓ} → (A → Option ℕ) → ℕ → List A → Result ℕ
sum_values value acc [] = ok acc
sum_values value acc (x ∷ xs) = do
  acc' ← elim (value x) [ none ↦ ok acc | some v ↦ or_panic (checked_add 128 acc v) ]
  sum_values value acc' xs

-- Interest on an existing debt to the reserve, if there is one.
unfoldable pub accrue_existing : Pubkey → ℕ → Obligation → Result Obligation
accrue_existing reserve_key index o = elim (find_borrow reserve_key o) [
  | ok slot_idx ↦ Obligation.accrue_interest slot_idx index o
  | err e ↦ ok o
]

-- The collateral must cover the debts as priced, and the new loan at the reserve's price.
unfoldable pub check_covered : ℕ → ℕ → Obligation → Result (Unit {0})
check_covered amount reserve_price_sf o = do
  deposits ← prefix o.deposits_count o.deposits
  collateral_value_sf ← sum_values deposit_value 0 deposits
  borrows ← prefix o.borrows_count o.borrows
  existing_borrow_value_sf ← sum_values borrow_value 0 borrows
  new_borrow_value_sf ← ok_or (checked_mul 128 amount reserve_price_sf) LendingError.math_overflow
  total_borrow_value_sf ←
      ok_or (checked_add 128 existing_borrow_value_sf new_borrow_value_sf)
        LendingError.math_overflow
  require (leb total_borrow_value_sf collateral_value_sf) LendingError.unhealthy_obligation

unfoldable pub borrow_obligation :
    Pubkey → (amount index price slot : ℕ) → Obligation → Result Obligation
borrow_obligation reserve_key amount index price slot o = do
  require (not (is_slot_stale o.last_update slot)) LendingError.obligation_stale
  accrued ← accrue_existing reserve_key index o
  o' ← Obligation.borrow reserve_key amount index accrued
  check_covered amount price o'
  ok o'

module _ {T : Type 0} (rt : Runtime T) where
  unfoldable pub borrow_check : BorrowAccounts → LendingMarket → T → Result (Unit {0})
  borrow_check a m t = do
    check_market_seeds rt m.owner m a.lending_market
    require (not (is_paused m)) LendingError.invalid_config
    check_seeds rt (obligation_seeds a.lending_market a.borrower) a.obligation
    check_seeds rt (reserve_seeds a.lending_market a.reserve_mint) a.reserve
    check_seeds rt (text "liquidity_vault" ∷ key a.reserve ∷ []) a.liquidity_vault
    check_token_mint rt t a.user_token_account a.reserve_mint

  unfoldable pub borrow : BorrowAccounts → ℕ → Clock → World T → Result (World T)
  borrow a amount clock w = do
    m ← or_missing (w.markets a.lending_market)
    o ← or_missing (w.obligations a.obligation)
    r ← or_missing (w.reserves a.reserve)
    decimals ← or_missing (rt.mint_decimals w.tokens a.reserve_mint)
    borrow_check a m w.tokens
    require (ltb 0 amount) LendingError.invalid_amount
    r' ← borrow_reserve clock.slot amount r
    o' ←
        borrow_obligation a.reserve amount (r'.liquidity.cumulative_borrow_rate_sf)
          (r'.liquidity.market_price_sf) clock.slot o
    t ← or_failed (
        rt.transfer_checked a.liquidity_vault a.reserve_mint a.user_token_account a.lending_market
          amount decimals w.tokens)
    ok (put_tokens t (put_obligation a.obligation o' (put_reserve a.reserve r' w)))
