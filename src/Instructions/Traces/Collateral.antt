-- ===== src/Instructions/Traces/Collateral.antt =====
-- programs/veilvault/src/instructions/{deposit_collateral, withdraw_collateral}.rs: the values and
-- the outcomes of the calls along a successful run.
use veil_vault.Base.{
  ℕ, ◌≡◌, refl, LendingError, ok, require, or_failed, or_missing, ltb, Ensures, step, returns,
}
use veil_vault.Market.{LendingMarket}
use veil_vault.Reserve.{Reserve}
use veil_vault.Reserve.Config.{is_active}
use veil_vault.Obligation
use veil_vault.Obligation.{Obligation}
use veil_vault.Runtime.{Clock, Runtime, World, put_obligation, put_tokens}
use veil_vault.Instructions.DepositCollateral.{
  DepositCollateralAccounts, deposit_collateral, deposit_collateral_check,
}
use veil_vault.Instructions.WithdrawCollateral.{
  WithdrawCollateralAccounts, withdraw_collateral, withdraw_collateral_check, withdraw_obligation,
}

module _ {T : Type 0} (rt : Runtime T) (a : DepositCollateralAccounts) (collateral_amount : ℕ)
    (clock : Clock) (w : World T) where
  pub record Locked (w' : World T) : Type 0 where
    pub m : LendingMarket
    pub m_is : or_missing (w.markets a.lending_market) ≡ ok m
    pub r : Reserve
    pub r_is : or_missing (w.reserves a.reserve) ≡ ok r
    pub decimals : ℕ
    pub decimals_is : or_missing (rt.mint_decimals w.tokens a.collateral_mint) ≡ ok decimals
    pub o : Obligation
    pub o_is : or_missing (w.obligations a.obligation) ≡ ok o
    pub checked : deposit_collateral_check rt a m w.tokens ≡ ok tt
    pub positive : require (ltb 0 collateral_amount) LendingError.invalid_amount ≡ ok tt
    pub active : require (is_active r.config) LendingError.invalid_config ≡ ok tt
    pub o' : Obligation
    pub o'_is : Obligation.deposit a.reserve collateral_amount o ≡ ok o'
    pub t : T
    pub t_is :
        or_failed (
          rt.transfer_checked a.user_collateral_account a.collateral_mint a.collateral_supply_vault
            a.depositor collateral_amount decimals w.tokens)
        ≡ ok t
    pub made : w' ≡ put_tokens t (put_obligation a.obligation o' w)

  pub deposit_collateral-Locked : Ensures Locked (deposit_collateral rt a collateral_amount clock w)
  unfolding deposit_collateral
  deposit_collateral-Locked = step (or_missing (w.markets a.lending_market)) λ m h0.
      step (or_missing (w.reserves a.reserve)) λ r h1.
        step (or_missing (rt.mint_decimals w.tokens a.collateral_mint)) λ decimals h2.
          step (or_missing (w.obligations a.obligation)) λ o h3.
            step (deposit_collateral_check rt a m w.tokens) λ _ h4.
              step (require (ltb 0 collateral_amount) LendingError.invalid_amount) λ _ h5.
                step (require (is_active r.config) LendingError.invalid_config) λ _ h6.
                  step (Obligation.deposit a.reserve collateral_amount o) λ o' h7.
                    step
                      (or_failed (
                        rt.transfer_checked a.user_collateral_account a.collateral_mint
                          a.collateral_supply_vault a.depositor collateral_amount decimals
                          w.tokens))
                      λ t h8. returns (record {
                        m = m;
                        m_is = h0;
                        r = r;
                        r_is = h1;
                        decimals = decimals;
                        decimals_is = h2;
                        o = o;
                        o_is = h3;
                        checked = h4;
                        positive = h5;
                        active = h6;
                        o' = o';
                        o'_is = h7;
                        t = t;
                        t_is = h8;
                        made = refl;
                      })

module _ {T : Type 0} (rt : Runtime T) (a : WithdrawCollateralAccounts) (collateral_amount : ℕ)
    (clock : Clock) (w : World T) where
  pub record Released (w' : World T) : Type 0 where
    pub m : LendingMarket
    pub m_is : or_missing (w.markets a.lending_market) ≡ ok m
    pub r : Reserve
    pub r_is : or_missing (w.reserves a.reserve) ≡ ok r
    pub decimals : ℕ
    pub decimals_is : or_missing (rt.mint_decimals w.tokens a.collateral_mint) ≡ ok decimals
    pub o : Obligation
    pub o_is : or_missing (w.obligations a.obligation) ≡ ok o
    pub checked : withdraw_collateral_check rt a m w.tokens ≡ ok tt
    pub positive : require (ltb 0 collateral_amount) LendingError.invalid_amount ≡ ok tt
    pub o' : Obligation
    pub o'_is : withdraw_obligation a.reserve collateral_amount clock.slot o ≡ ok o'
    pub t : T
    pub t_is :
        or_failed (
          rt.transfer_checked a.collateral_supply_vault a.collateral_mint a.user_collateral_account
            a.lending_market collateral_amount decimals w.tokens)
        ≡ ok t
    pub made : w' ≡ put_tokens t (put_obligation a.obligation o' w)

  pub withdraw_collateral-Released :
      Ensures Released (withdraw_collateral rt a collateral_amount clock w)
  unfolding withdraw_collateral
  withdraw_collateral-Released = step (or_missing (w.markets a.lending_market)) λ m h0.
      step (or_missing (w.reserves a.reserve)) λ r h1.
        step (or_missing (rt.mint_decimals w.tokens a.collateral_mint)) λ decimals h2.
          step (or_missing (w.obligations a.obligation)) λ o h3.
            step (withdraw_collateral_check rt a m w.tokens) λ _ h4.
              step (require (ltb 0 collateral_amount) LendingError.invalid_amount) λ _ h5.
                step (withdraw_obligation a.reserve collateral_amount clock.slot o) λ o' h6.
                  step
                    (or_failed (
                      rt.transfer_checked a.collateral_supply_vault a.collateral_mint
                        a.user_collateral_account a.lending_market collateral_amount decimals
                        w.tokens))
                    λ t h7. returns (record {
                      m = m;
                      m_is = h0;
                      r = r;
                      r_is = h1;
                      decimals = decimals;
                      decimals_is = h2;
                      o = o;
                      o_is = h3;
                      checked = h4;
                      positive = h5;
                      o' = o';
                      o'_is = h6;
                      t = t;
                      t_is = h7;
                      made = refl;
                    })
