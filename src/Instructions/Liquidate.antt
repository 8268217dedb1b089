-- ===== src/Instructions/Liquidate.antt =====
-- programs/veilvault/src/instructions/liquidate.rs: part of an unhealthy debt repaid for
-- collateral with a bonus. The two reserves may be one account, so both go through the world.
pub mod Amounts
pub mod Effects
use veil_vault.Base.{
  ℕ, ◌+◌, ◌/◌, not, Option, none, some, List, [], ◌∷◌, Constraint, LendingError, Result, ok,
  require, constrain, ok_or, or_panic, or_failed, or_missing, ◌>>=◌, ◌>>◌, ltb, ◌==◌, ◌||◌,
  if◌then◌else◌, min, cast, checked_mul, checked_div, ◌and_then◌, get_elem?,
}
use veil_vault.Constants.{Pubkey, bps_scaler, max_liquidation_close_factor_pct, rate_scale}
use veil_vault.LastUpdate.{is_slot_stale}
use veil_vault.Market.{LendingMarket, is_paused}
use veil_vault.Reserve
use veil_vault.Reserve.{Reserve}
use veil_vault.Reserve.Config.{is_active}
use veil_vault.Reserve.Liquidity.{total_supply}
use veil_vault.Obligation
use veil_vault.Obligation.{Obligation, is_healthy, find_borrow, find_deposit}
use veil_vault.Runtime.{
  Clock, Runtime, World, text, key, put_reserve, put_obligation, put_tokens, check_seeds,
  check_market_seeds, check_token_mint,
}

pub record LiquidateAccounts : Type 0 where
  pub liquidator : Pubkey
  pub lending_market : Pubkey
  pub obligation : Pubkey
  pub repay_reserve : Pubkey
  pub repay_reserve_mint : Pubkey
  pub repay_liquidity_vault : Pubkey
  pub liquidator_repay_token_account : Pubkey
  pub withdraw_reserve : Pubkey
  pub withdraw_collateral_mint : Pubkey
  pub collateral_supply_vault : Pubkey
  pub liquidator_collateral_account : Pubkey

-- The snapshot of the collateral's reserve.
pub record WithdrawSide : Type 0 where
  pub price_sf : ℕ
  pub total_liquidity : ℕ
  pub ctoken_supply : ℕ
  pub bonus_bps : ℕ

-- Either reserve: active, brought up to date and priced.
unfoldable pub ready_reserve : ℕ → Reserve → Result Reserve
ready_reserve slot r = do
  require (is_active r.config) LendingError.invalid_config
  accrued ← Reserve.accrue_interest slot r
  require (ltb 0 (accrued.liquidity.market_price_sf)) LendingError.price_not_valid
  ok accrued

unfoldable pub withdraw_side : Reserve → Result WithdrawSide
withdraw_side r = do
  total ← total_supply r.liquidity
  ok (record {
    price_sf = r.liquidity.market_price_sf;
    total_liquidity = total;
    ctoken_supply = r.collateral.mint_total_supply;
    bonus_bps = r.config.liquidation_bonus_pct;
  })

-- The close factor: at most half of the debt, in whole token units. The product is unchecked.
unfoldable pub repay_capped : ℕ → ℕ → Result ℕ
repay_capped repay_amount borrowed_amount_sf = do
  scaled ←
      or_panic (checked_mul 128 (borrowed_amount_sf / rate_scale) max_liquidation_close_factor_pct)
  let max_repay = cast 64 (scaled / 100)
  let actual_repay = min repay_amount max_repay
  require (ltb 0 actual_repay) LendingError.invalid_amount
  ok actual_repay

-- The cTokens worth the repayment and the bonus.
unfoldable pub ctokens_for : (actual_repay repay_price_sf : ℕ) → WithdrawSide → Result ℕ
ctokens_for actual_repay repay_price_sf s = do
  repay_value_sf ← ok_or (checked_mul 128 actual_repay repay_price_sf) LendingError.math_overflow
  bonus_value_sf ←
      ok_or
        (checked_mul 128 repay_value_sf (bps_scaler + s.bonus_bps) and_then λ v.
          checked_div v bps_scaler)
        LendingError.math_overflow
  underlying ← ok_or (checked_div bonus_value_sf s.price_sf) LendingError.math_overflow
  if s.ctoken_supply == 0 || s.total_liquidity == 0
      then ok underlying
      else ok_or
          (checked_mul 128 underlying s.ctoken_supply and_then λ v. checked_div v s.total_liquidity)
          LendingError.math_overflow

-- Capped at what is locked.
unfoldable pub seize_capped : ℕ → ℕ → Result ℕ
seize_capped ctokens deposited = do
  let ctokens_to_seize = cast 64 (min ctokens deposited)
  require (ltb 0 ctokens_to_seize) LendingError.invalid_amount
  ok ctokens_to_seize

-- The amounts, and the obligation after both moves, once its health has been judged.
unfoldable pub liquidate_position :
    (repay_key withdraw_key : Pubkey)
    → (repay_amount repay_price_sf index : ℕ) → WithdrawSide
    → Obligation
    → Result (Obligation × ℕ × ℕ)
liquidate_position repay_key withdraw_key repay_amount repay_price_sf index s o = do
  borrow_idx ← find_borrow repay_key o
  accrued ← Obligation.accrue_interest borrow_idx index o
  b ← or_panic (get_elem? accrued.borrows borrow_idx)
  actual_repay ← repay_capped repay_amount b.borrowed_amount_sf
  ctokens ← ctokens_for actual_repay repay_price_sf s
  deposit_idx ← find_deposit withdraw_key accrued
  d ← or_panic (get_elem? accrued.deposits deposit_idx)
  ctokens_to_seize ← seize_capped ctokens d.deposited_amount
  repaid ← Obligation.repay repay_key actual_repay accrued
  seized ← Obligation.withdraw withdraw_key ctokens_to_seize repaid
  ok (seized, actual_repay, ctokens_to_seize)

unfoldable pub liquidate_obligation :
    (repay_key withdraw_key : Pubkey)
    → (repay_amount repay_price_sf index slot : ℕ) → WithdrawSide
    → Obligation
    → Result (Obligation × ℕ × ℕ)
liquidate_obligation repay_key withdraw_key repay_amount repay_price_sf index slot s o = do
  require (not (is_slot_stale o.last_update slot)) LendingError.obligation_stale
  healthy ← is_healthy o
  require (not healthy) LendingError.obligation_healthy
  liquidate_position repay_key withdraw_key repay_amount repay_price_sf index s o

module _ {T : Type 0} (rt : Runtime T) where
  unfoldable pub liquidate_check :
      LiquidateAccounts → LendingMarket → Obligation → (rr wr : Reserve) → T → Result (Unit {0})
  liquidate_check a m o rr wr t = do
    check_market_seeds rt m.owner m a.lending_market
    require (not (is_paused m)) LendingError.invalid_config
    constrain (o.lending_market == a.lending_market) Constraint.constraint_has_one
    require (rr.lending_market == a.lending_market) LendingError.invalid_config
    check_seeds rt (text "liquidity_vault" ∷ key a.repay_reserve ∷ []) a.repay_liquidity_vault
    check_token_mint rt t a.liquidator_repay_token_account a.repay_reserve_mint
    require (wr.lending_market == a.lending_market) LendingError.invalid_config
    check_seeds rt (text "collateral_mint" ∷ key a.withdraw_reserve ∷ []) a.withdraw_collateral_mint
    check_seeds rt (text "collateral_supply" ∷ key a.withdraw_reserve ∷ [])
        a.collateral_supply_vault
    check_token_mint rt t a.liquidator_collateral_account a.withdraw_collateral_mint

  unfoldable pub liquidate : LiquidateAccounts → ℕ → Clock → World T → Result (World T)
  liquidate a repay_amount clock w = do
    m ← or_missing (w.markets a.lending_market)
    o ← or_missing (w.obligations a.obligation)
    rr ← or_missing (w.reserves a.repay_reserve)
    wr ← or_missing (w.reserves a.withdraw_reserve)
    repay_decimals ← or_missing (rt.mint_decimals w.tokens a.repay_reserve_mint)
    collateral_decimals ← or_missing (rt.mint_decimals w.tokens a.withdraw_collateral_mint)
    liquidate_check a m o rr wr w.tokens
    require (ltb 0 repay_amount) LendingError.invalid_amount
    rr' ← ready_reserve clock.slot rr
    let w1 = put_reserve a.repay_reserve rr' w
    wr1 ← or_missing (w1.reserves a.withdraw_reserve)
    wr' ← ready_reserve clock.slot wr1
    s ← withdraw_side wr'
    let w2 = put_reserve a.withdraw_reserve wr' w1
    (o', actual_repay, ctokens_to_seize) ←
        liquidate_obligation a.repay_reserve a.withdraw_reserve repay_amount
          (rr'.liquidity.market_price_sf) (rr'.liquidity.cumulative_borrow_rate_sf) clock.slot s o
    rr2 ← or_missing (w2.reserves a.repay_reserve)
    rr'' ← Reserve.repay actual_repay rr2
    t ← or_failed (
        rt.transfer_checked a.liquidator_repay_token_account a.repay_reserve_mint
          a.repay_liquidity_vault a.liquidator actual_repay repay_decimals w2.tokens)
    t' ← or_failed (
        rt.transfer_checked a.collateral_supply_vault a.withdraw_collateral_mint
          a.liquidator_collateral_account a.lending_market ctokens_to_seize collateral_decimals t)
    ok (put_tokens t' (put_obligation a.obligation o' (put_reserve a.repay_reserve rr'' w2)))
