-- ===== src/Private/Liquidate.antt =====
-- programs/veilvault/src/instructions/private_liquidate.rs, second half: a liquidation for which
-- the flag of a confidential position stands in for the health of the obligation.
pub mod Flag
use veil_vault.Base.{
  ℕ, not, Option, none, some, List, [], ◌∷◌, Constraint, LendingError, Result, ok, require,
  constrain, or_failed, or_missing, false, ◌>>=◌, ◌>>◌, ltb, ◌==◌,
}
use veil_vault.Constants.{Pubkey}
use veil_vault.LastUpdate.{is_slot_stale}
use veil_vault.Market.{LendingMarket, is_paused}
use veil_vault.Reserve
use veil_vault.Reserve.{Reserve}
use veil_vault.Obligation.{Obligation}
use veil_vault.Runtime.{
  Clock, Runtime, text, key, put_reserve, put_obligation, put_tokens, check_seeds,
  check_market_seeds, check_token_mint, check_token_owner,
}
use veil_vault.Instructions.Liquidate.{
  WithdrawSide, ready_reserve, withdraw_side, liquidate_position,
}
use veil_vault.Private.{PrivateObligation, Chain, put_private, put_world, check_private_seeds}

pub record ExecutePrivateLiquidationAccounts : Type 0 where
  pub liquidator : Pubkey
  pub lending_market : Pubkey
  pub obligation_owner : Pubkey
  pub private_obligation : Pubkey
  pub obligation : Pubkey
  pub repay_reserve : Pubkey
  pub repay_reserve_mint : Pubkey
  pub repay_liquidity_vault : Pubkey
  pub liquidator_repay_account : Pubkey
  pub withdraw_reserve : Pubkey
  pub withdraw_collateral_mint : Pubkey
  pub collateral_supply_vault : Pubkey
  pub liquidator_collateral_account : Pubkey

-- The obligation's part: it must be fresh, and its health is not asked for. The amounts are those
-- of the public instruction, written out a second time.
unfoldable pub private_liquidate_obligation :
    (repay_key withdraw_key : Pubkey)
    → (repay_amount repay_price_sf index slot : ℕ) → WithdrawSide
    → Obligation
    → Result (Obligation × ℕ × ℕ)
private_liquidate_obligation repay_key withdraw_key repay_amount repay_price_sf index slot s o = do
  require (not (is_slot_stale o.last_update slot)) LendingError.obligation_stale
  liquidate_position repay_key withdraw_key repay_amount repay_price_sf index s o

module _ {T : Type 0} (rt : Runtime T) where
  unfoldable pub execute_private_liquidation_check :
      ExecutePrivateLiquidationAccounts
      → LendingMarket
      → PrivateObligation
      → Obligation
      → (rr wr : Reserve) → T
      → Result (Unit {0})
  execute_private_liquidation_check a m po o rr wr t = do
    check_market_seeds rt m.owner m a.lending_market
    require (not (is_paused m)) LendingError.invalid_config
    check_private_seeds rt a.lending_market a.obligation_owner po a.private_obligation
    constrain (o.lending_market == a.lending_market) Constraint.constraint_has_one
    require (rr.lending_market == a.lending_market) LendingError.invalid_config
    check_seeds rt (text "liquidity_vault" ∷ key a.repay_reserve ∷ []) a.repay_liquidity_vault
    check_token_mint rt t a.liquidator_repay_account a.repay_reserve_mint
    check_token_owner rt t a.liquidator_repay_account a.liquidator
    require (wr.lending_market == a.lending_market) LendingError.invalid_config
    check_seeds rt (text "collateral_mint" ∷ key a.withdraw_reserve ∷ []) a.withdraw_collateral_mint
    check_seeds rt (text "collateral_supply" ∷ key a.withdraw_reserve ∷ [])
        a.collateral_supply_vault
    check_token_mint rt t a.liquidator_collateral_account a.withdraw_collateral_mint

module _ {T Q : Type 0} (rt : Runtime T) where
  unfoldable pub execute_private_liquidation :
      ExecutePrivateLiquidationAccounts → ℕ → Clock → Chain T Q → Result (Chain T Q)
  execute_private_liquidation a repay_amount clock c = do
    m ← or_missing (c.world.markets a.lending_market)
    po ← or_missing (c.private_obligations a.private_obligation)
    o ← or_missing (c.world.obligations a.obligation)
    rr ← or_missing (c.world.reserves a.repay_reserve)
    wr ← or_missing (c.world.reserves a.withdraw_reserve)
    repay_decimals ← or_missing (rt.mint_decimals c.world.tokens a.repay_reserve_mint)
    collateral_decimals ← or_missing (rt.mint_decimals c.world.tokens a.withdraw_collateral_mint)
    execute_private_liquidation_check rt a m po o rr wr c.world.tokens
    require po.is_liquidatable LendingError.obligation_healthy
    require (ltb 0 repay_amount) LendingError.invalid_amount
    require (not (is_paused m)) LendingError.invalid_config
    rr' ← ready_reserve clock.slot rr
    let w1 = put_reserve a.repay_reserve rr' c.world
    wr1 ← or_missing (w1.reserves a.withdraw_reserve)
    wr' ← ready_reserve clock.slot wr1
    s ← withdraw_side wr'
    let w2 = put_reserve a.withdraw_reserve wr' w1
    (o', actual_repay, ctokens_to_seize) ←
        private_liquidate_obligation a.repay_reserve a.withdraw_reserve repay_amount
          (rr'.liquidity.market_price_sf) (rr'.liquidity.cumulative_borrow_rate_sf) clock.slot s o
    rr2 ← or_missing (w2.reserves a.repay_reserve)
    rr'' ← Reserve.repay actual_repay rr2
    t ← or_failed (
        rt.transfer_checked a.liquidator_repay_account a.repay_reserve_mint a.repay_liquidity_vault
          a.liquidator actual_repay repay_decimals w2.tokens)
    t' ← or_failed (
        rt.transfer_checked a.collateral_supply_vault a.withdraw_collateral_mint
          a.liquidator_collateral_account a.lending_market ctokens_to_seize collateral_decimals t)
    let w3 = put_tokens t' (put_obligation a.obligation o' (put_reserve a.repay_reserve rr'' w2))
    ok (put_private a.private_obligation (record po { is_liquidatable = false }) (put_world w3 c))
