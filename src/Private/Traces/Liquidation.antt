-- ===== src/Private/Traces/Liquidation.antt =====
-- programs/veilvault/src/instructions/private_liquidate.rs, `execute_private_liquidation`: the
-- values and the outcomes of the calls along a successful run.
use veil_vault.Base.{
  ℕ, ◌≡◌, refl, false, LendingError, ok, require, or_failed, or_missing, ltb, not, Ensures, step,
  returns,
}
use veil_vault.Market.{LendingMarket, is_paused}
use veil_vault.Reserve
use veil_vault.Reserve.{Reserve}
use veil_vault.Obligation.{Obligation}
use veil_vault.Runtime.{Clock, Runtime, put_reserve, put_obligation, put_tokens}
use veil_vault.Private.{PrivateObligation, Chain, put_private, put_world}
use veil_vault.Instructions.Liquidate.{WithdrawSide, ready_reserve, withdraw_side}
use veil_vault.Private.Liquidate.{
  ExecutePrivateLiquidationAccounts, private_liquidate_obligation,
  execute_private_liquidation_check, execute_private_liquidation,
}

module _ {T Q : Type 0} (rt : Runtime T) (a : ExecutePrivateLiquidationAccounts) (repay_amount : ℕ)
    (clock : Clock) (c : Chain T Q) where
  pub record Executed (c' : Chain T Q) : Type 0 where
    pub m : LendingMarket
    pub m_is : or_missing (c.world.markets a.lending_market) ≡ ok m
    pub po : PrivateObligation
    pub po_is : or_missing (c.private_obligations a.private_obligation) ≡ ok po
    pub o : Obligation
    pub o_is : or_missing (c.world.obligations a.obligation) ≡ ok o
    pub rr : Reserve
    pub rr_is : or_missing (c.world.reserves a.repay_reserve) ≡ ok rr
    pub wr : Reserve
    pub wr_is : or_missing (c.world.reserves a.withdraw_reserve) ≡ ok wr
    pub repay_decimals : ℕ
    pub repay_decimals_is :
        or_missing (rt.mint_decimals c.world.tokens a.repay_reserve_mint) ≡ ok repay_decimals
    pub collateral_decimals : ℕ
    pub collateral_decimals_is :
        or_missing (rt.mint_decimals c.world.tokens a.withdraw_collateral_mint)
        ≡ ok collateral_decimals
    pub checked : execute_private_liquidation_check rt a m po o rr wr c.world.tokens ≡ ok tt
    pub flagged : require po.is_liquidatable LendingError.obligation_healthy ≡ ok tt
    pub positive : require (ltb 0 repay_amount) LendingError.invalid_amount ≡ ok tt
    pub open_market : require (not (is_paused m)) LendingError.invalid_config ≡ ok tt
    pub rr' : Reserve
    pub rr'_is : ready_reserve clock.slot rr ≡ ok rr'
    pub wr1 : Reserve
    pub wr1_is :
        or_missing ((put_reserve a.repay_reserve rr' c.world).reserves a.withdraw_reserve) ≡ ok wr1
    pub wr' : Reserve
    pub wr'_is : ready_reserve clock.slot wr1 ≡ ok wr'
    pub s : WithdrawSide
    pub s_is : withdraw_side wr' ≡ ok s
    pub o' : Obligation
    pub actual_repay : ℕ
    pub ctokens_to_seize : ℕ
    pub o'_is :
        private_liquidate_obligation a.repay_reserve a.withdraw_reserve repay_amount
          (rr'.liquidity.market_price_sf)
          (rr'.liquidity.cumulative_borrow_rate_sf)
          clock.slot
          s
          o
        ≡ ok (o', actual_repay, ctokens_to_seize)
    pub rr2 : Reserve
    pub rr2_is :
        or_missing (
          (put_reserve a.withdraw_reserve wr' (put_reserve a.repay_reserve rr' c.world)).reserves
            a.repay_reserve)
        ≡ ok rr2
    pub rr'' : Reserve
    pub rr''_is : Reserve.repay actual_repay rr2 ≡ ok rr''
    pub t : T
    pub t_is :
        or_failed (
          rt.transfer_checked a.liquidator_repay_account a.repay_reserve_mint
            a.repay_liquidity_vault a.liquidator actual_repay repay_decimals
            (put_reserve a.withdraw_reserve wr' (put_reserve a.repay_reserve rr' c.world)).tokens)
        ≡ ok t
    pub t' : T
    pub t'_is :
        or_failed (
          rt.transfer_checked a.collateral_supply_vault a.withdraw_collateral_mint
            a.liquidator_collateral_account a.lending_market ctokens_to_seize collateral_decimals t)
        ≡ ok t'
    pub made :
        c'
        ≡ put_private a.private_obligation
            (record po { is_liquidatable = false })
            (put_world
              (put_tokens t' (
                put_obligation a.obligation o' (
                  put_reserve a.repay_reserve rr'' (
                    put_reserve a.withdraw_reserve wr' (put_reserve a.repay_reserve rr' c.world)))))
              c)

  pub execute_private_liquidation-Executed :
      Ensures Executed (execute_private_liquidation rt a repay_amount clock c)
  unfolding execute_private_liquidation
  execute_private_liquidation-Executed =
      step (or_missing (c.world.markets a.lending_market)) λ m h0.
        step (or_missing (c.private_obligations a.private_obligation)) λ po h1.
          step (or_missing (c.world.obligations a.obligation)) λ o h2.
            step (or_missing (c.world.reserves a.repay_reserve)) λ rr h3.
              step (or_missing (c.world.reserves a.withdraw_reserve)) λ wr h4.
                step (or_missing (rt.mint_decimals c.world.tokens a.repay_reserve_mint))
                  λ repay_decimals h5.
                    step (or_missing (rt.mint_decimals c.world.tokens a.withdraw_collateral_mint))
                      λ collateral_decimals h6.
                        step (execute_private_liquidation_check rt a m po o rr wr c.world.tokens)
                          λ _ h7.
                            step (require po.is_liquidatable LendingError.obligation_healthy)
                              λ _ h8.
                                step (require (ltb 0 repay_amount) LendingError.invalid_amount)
                                  λ _ h9.
                                    step (require (not (is_paused m)) LendingError.invalid_config)
                                      λ _ h10. step (ready_reserve clock.slot rr) λ rr' h11.
                                        step
                                          (or_missing (
                                            (put_reserve a.repay_reserve rr' c.world).reserves
                                              a.withdraw_reserve))
                                          λ wr1 h12. step (ready_reserve clock.slot wr1) λ wr' h13.
                                            step (withdraw_side wr') λ s h14.
                                              step
                                                (private_liquidate_obligation a.repay_reserve
                                                  a.withdraw_reserve repay_amount
                                                  (rr'.liquidity.market_price_sf)
                                                  (rr'.liquidity.cumulative_borrow_rate_sf)
                                                  clock.slot s o)
                                                λ (o', actual_repay, ctokens_to_seize) h15.
                                                  step
                                                    (or_missing (
                                                      (put_reserve a.withdraw_reserve wr' (
                                                          put_reserve a.repay_reserve rr'
                                                            c.world)).reserves
                                                        a.repay_reserve))
                                                    λ rr2 h16.
                                                      step (Reserve.repay actual_repay rr2)
                                                        λ rr'' h17.
                                                          step
                                                            (or_failed (
                                                            rt.transfer_checked
                                                            a.liquidator_repay_account
                                                            a.repay_reserve_mint
                                                            a.repay_liquidity_vault a.liquidator
                                                            actual_repay repay_decimals
                                                            (put_reserve a.withdraw_reserve wr' (
                                                            put_reserve a.repay_reserve rr'
                                                            c.world)).tokens))
                                                            λ t h18.
                                                            step
                                                            (or_failed (
                                                            rt.transfer_checked
                                                            a.collateral_supply_vault
                                                            a.withdraw_collateral_mint
                                                            a.liquidator_collateral_account
                                                            a.lending_market ctokens_to_seize
                                                            collateral_decimals t))
                                                            λ t' h19. returns (record {
                                                            m = m;
                                                            m_is = h0;
                                                            po = po;
                                                            po_is = h1;
                                                            o = o;
                                                            o_is = h2;
                                                            rr = rr;
                                                            rr_is = h3;
                                                            wr = wr;
                                                            wr_is = h4;
                                                            repay_decimals = repay_decimals;
                                                            repay_decimals_is = h5;
                                                            collateral_decimals =
                                                            collateral_decimals;
                                                            collateral_decimals_is = h6;
                                                            checked = h7;
                                                            flagged = h8;
                                                            positive = h9;
                                                            open_market = h10;
                                                            rr' = rr';
                                                            rr'_is = h11;
                                                            wr1 = wr1;
                                                            wr1_is = h12;
                                                            wr' = wr';
                                                            wr'_is = h13;
                                                            s = s;
                                                            s_is = h14;
                                                            o' = o';
                                                            actual_repay = actual_repay;
                                                            ctokens_to_seize = ctokens_to_seize;
                                                            o'_is = h15;
                                                            rr2 = rr2;
                                                            rr2_is = h16;
                                                            rr'' = rr'';
                                                            rr''_is = h17;
                                                            t = t;
                                                            t_is = h18;
                                                            t' = t';
                                                            t'_is = h19;
                                                            made = refl;
                                                            })
