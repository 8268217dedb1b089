-- ===== src/Instructions/Traces/Liquidation.antt =====
-- programs/veilvault/src/instructions/liquidate.rs: the values and the outcomes of the calls along
-- a successful run.
use veil_vault.Base.{
  ℕ, ◌≡◌, refl, LendingError, ok, require, or_failed, or_missing, ltb, Ensures, step, returns,
}
use veil_vault.Market.{LendingMarket}
use veil_vault.Reserve
use veil_vault.Reserve.{Reserve}
use veil_vault.Obligation.{Obligation}
use veil_vault.Runtime.{Clock, Runtime, World, put_reserve, put_obligation, put_tokens}
use veil_vault.Instructions.Liquidate.{
  LiquidateAccounts, WithdrawSide, liquidate, liquidate_check, ready_reserve, withdraw_side,
  liquidate_obligation,
}

module _ {T : Type 0} (rt : Runtime T) (a : LiquidateAccounts) (repay_amount : ℕ) (clock : Clock)
    (w : World T) where
  pub record Seized (w' : World T) : Type 0 where
    pub m : LendingMarket
    pub m_is : or_missing (w.markets a.lending_market) ≡ ok m
    pub o : Obligation
    pub o_is : or_missing (w.obligations a.obligation) ≡ ok o
    pub rr : Reserve
    pub rr_is : or_missing (w.reserves a.repay_reserve) ≡ ok rr
    pub wr : Reserve
    pub wr_is : or_missing (w.reserves a.withdraw_reserve) ≡ ok wr
    pub repay_decimals : ℕ
    pub repay_decimals_is :
        or_missing (rt.mint_decimals w.tokens a.repay_reserve_mint) ≡ ok repay_decimals
    pub collateral_decimals : ℕ
    pub collateral_decimals_is :
        or_missing (rt.mint_decimals w.tokens a.withdraw_collateral_mint) ≡ ok collateral_decimals
    pub checked : liquidate_check rt a m o rr wr w.tokens ≡ ok tt
    pub positive : require (ltb 0 repay_amount) LendingError.invalid_amount ≡ ok tt
    pub rr' : Reserve
    pub rr'_is : ready_reserve clock.slot rr ≡ ok rr'
    pub wr1 : Reserve
    pub wr1_is :
        or_missing ((put_reserve a.repay_reserve rr' w).reserves a.withdraw_reserve) ≡ ok wr1
    pub wr' : Reserve
    pub wr'_is : ready_reserve clock.slot wr1 ≡ ok wr'
    pub s : WithdrawSide
    pub s_is : withdraw_side wr' ≡ ok s
    pub o' : Obligation
    pub actual_repay : ℕ
    pub ctokens_to_seize : ℕ
    pub o'_is :
        liquidate_obligation a.repay_reserve a.withdraw_reserve repay_amount
          (rr'.liquidity.market_price_sf)
          (rr'.liquidity.cumulative_borrow_rate_sf)
          clock.slot
          s
          o
        ≡ ok (o', actual_repay, ctokens_to_seize)
    pub rr2 : Reserve
    pub rr2_is :
        or_missing (
          (put_reserve a.withdraw_reserve wr' (put_reserve a.repay_reserve rr' w)).reserves
            a.repay_reserve)
        ≡ ok rr2
    pub rr'' : Reserve
    pub rr''_is : Reserve.repay actual_repay rr2 ≡ ok rr''
    pub t : T
    pub t_is :
        or_failed (
          rt.transfer_checked a.liquidator_repay_token_account a.repay_reserve_mint
            a.repay_liquidity_vault a.liquidator actual_repay repay_decimals
            (put_reserve a.withdraw_reserve wr' (put_reserve a.repay_reserve rr' w)).tokens)
        ≡ ok t
    pub t' : T
    pub t'_is :
        or_failed (
          rt.transfer_checked a.collateral_supply_vault a.withdraw_collateral_mint
            a.liquidator_collateral_account a.lending_market ctokens_to_seize collateral_decimals t)
        ≡ ok t'
    pub made :
        w'
        ≡ put_tokens t' (
            put_obligation a.obligation o' (
              put_reserve a.repay_reserve rr''
                (put_reserve a.withdraw_reserve wr' (put_reserve a.repay_reserve rr' w))))

  pub liquidate-Seized : Ensures Seized (liquidate rt a repay_amount clock w)
  unfolding liquidate
  liquidate-Seized = step (or_missing (w.markets a.lending_market)) λ m h0.
      step (or_missing (w.obligations a.obligation)) λ o h1.
        step (or_missing (w.reserves a.repay_reserve)) λ rr h2.
          step (or_missing (w.reserves a.withdraw_reserve)) λ wr h3.
            step (or_missing (rt.mint_decimals w.tokens a.repay_reserve_mint)) λ repay_decimals h4.
              step (or_missing (rt.mint_decimals w.tokens a.withdraw_collateral_mint))
                λ collateral_decimals h5. step (liquidate_check rt a m o rr wr w.tokens) λ _ h6.
                  step (require (ltb 0 repay_amount) LendingError.invalid_amount) λ _ h7.
                    step (ready_reserve clock.slot rr) λ rr' h8.
                      step
                        (or_missing
                          ((put_reserve a.repay_reserve rr' w).reserves a.withdraw_reserve))
                        λ wr1 h9. step (ready_reserve clock.slot wr1) λ wr' h10.
                          step (withdraw_side wr') λ s h11.
                            step
                              (liquidate_obligation a.repay_reserve a.withdraw_reserve repay_amount
                                (rr'.liquidity.market_price_sf)
                                (rr'.liquidity.cumulative_borrow_rate_sf) clock.slot s o)
                              λ (o', actual_repay, ctokens_to_seize) h12.
                                step
                                  (or_missing (
                                    (put_reserve a.withdraw_reserve wr'
                                        (put_reserve a.repay_reserve rr' w)).reserves
                                      a.repay_reserve))
                                  λ rr2 h13. step (Reserve.repay actual_repay rr2) λ rr'' h14.
                                    step
                                      (or_failed (
                                        rt.transfer_checked a.liquidator_repay_token_account
                                          a.repay_reserve_mint a.repay_liquidity_vault a.liquidator
                                          actual_repay repay_decimals
                                          (put_reserve a.withdraw_reserve wr'
                                            (put_reserve a.repay_reserve rr' w)).tokens))
                                      λ t h15.
                                        step
                                          (or_failed (
                                            rt.transfer_checked a.collateral_supply_vault
                                              a.withdraw_collateral_mint
                                              a.liquidator_collateral_account a.lending_market
                                              ctokens_to_seize collateral_decimals t))
                                          λ t' h16. returns (record {
                                            m = m;
                                            m_is = h0;
                                            o = o;
                                            o_is = h1;
                                            rr = rr;
                                            rr_is = h2;
                                            wr = wr;
                                            wr_is = h3;
                                            repay_decimals = repay_decimals;
                                            repay_decimals_is = h4;
                                            collateral_decimals = collateral_decimals;
                                            collateral_decimals_is = h5;
                                            checked = h6;
                                            positive = h7;
                                            rr' = rr';
                                            rr'_is = h8;
                                            wr1 = wr1;
                                            wr1_is = h9;
                                            wr' = wr';
                                            wr'_is = h10;
                                            s = s;
                                            s_is = h11;
                                            o' = o';
                                            actual_repay = actual_repay;
                                            ctokens_to_seize = ctokens_to_seize;
                                            o'_is = h12;
                                            rr2 = rr2;
                                            rr2_is = h13;
                                            rr'' = rr'';
                                            rr''_is = h14;
                                            t = t;
                                            t_is = h15;
                                            t' = t';
                                            t'_is = h16;
                                            made = refl;
                                          })
