-- ===== src/Instructions/Traces/Supply.antt =====
-- programs/veilvault/src/instructions/{deposit, withdraw}.rs: the values and the outcomes of the
-- calls along a successful run.
use veil_vault.Base.{
  ℕ, ◌≡◌, refl, LendingError, ok, require, or_failed, or_missing, ltb, Ensures, step, returns,
}
use veil_vault.Market.{LendingMarket}
use veil_vault.Reserve.{Reserve}
use veil_vault.Runtime.{Clock, Runtime, World, put_reserve, put_tokens}
use veil_vault.Instructions.Deposit.{DepositAccounts, deposit, deposit_check, deposit_reserve}
use veil_vault.Instructions.Withdraw.{WithdrawAccounts, withdraw, withdraw_check, withdraw_reserve}

module _ {T : Type 0} (rt : Runtime T) (a : DepositAccounts) (amount : ℕ) (clock : Clock)
    (w : World T) where
  pub record Deposited (w' : World T) : Type 0 where
    pub m : LendingMarket
    pub m_is : or_missing (w.markets a.lending_market) ≡ ok m
    pub r : Reserve
    pub r_is : or_missing (w.reserves a.reserve) ≡ ok r
    pub decimals : ℕ
    pub decimals_is : or_missing (rt.mint_decimals w.tokens a.reserve_mint) ≡ ok decimals
    pub checked : deposit_check rt a m w.tokens ≡ ok tt
    pub positive : require (ltb 0 amount) LendingError.invalid_amount ≡ ok tt
    pub r' : Reserve
    pub collateral_amount : ℕ
    pub r'_is : deposit_reserve clock.slot amount r ≡ ok (r', collateral_amount)
    pub t : T
    pub t_is :
        or_failed (
          rt.transfer_checked a.user_token_account a.reserve_mint a.liquidity_vault a.depositor
            amount decimals w.tokens)
        ≡ ok t
    pub t' : T
    pub t'_is :
        or_failed (
          rt.mint_to a.collateral_mint a.user_collateral_account a.lending_market collateral_amount
            t)
        ≡ ok t'
    pub made : w' ≡ put_tokens t' (put_reserve a.reserve r' w)

  pub deposit-Deposited : Ensures Deposited (deposit rt a amount clock w)
  unfolding deposit
  deposit-Deposited = step (or_missing (w.markets a.lending_market)) λ m h0.
      step (or_missing (w.reserves a.reserve)) λ r h1.
        step (or_missing (rt.mint_decimals w.tokens a.reserve_mint)) λ decimals h2.
          step (deposit_check rt a m w.tokens) λ _ h3.
            step (require (ltb 0 amount) LendingError.invalid_amount) λ _ h4.
              step (deposit_reserve clock.slot amount r) λ (r', collateral_amount) h5.
                step
                  (or_failed (
                    rt.transfer_checked a.user_token_account a.reserve_mint a.liquidity_vault
                      a.depositor amount decimals w.tokens))
                  λ t h6.
                    step
                      (or_failed (
                        rt.mint_to a.collateral_mint a.user_collateral_account a.lending_market
                          collateral_amount t))
                      λ t' h7. returns (record {
                        m = m;
                        m_is = h0;
                        r = r;
                        r_is = h1;
                        decimals = decimals;
                        decimals_is = h2;
                        checked = h3;
                        positive = h4;
                        r' = r';
                        collateral_amount = collateral_amount;
                        r'_is = h5;
                        t = t;
                        t_is = h6;
                        t' = t';
                        t'_is = h7;
                        made = refl;
                      })

module _ {T : Type 0} (rt : Runtime T) (a : WithdrawAccounts) (collateral_amount : ℕ)
    (clock : Clock) (w : World T) where
  pub record Withdrawn (w' : World T) : Type 0 where
    pub m : LendingMarket
    pub m_is : or_missing (w.markets a.lending_market) ≡ ok m
    pub r : Reserve
    pub r_is : or_missing (w.reserves a.reserve) ≡ ok r
    pub decimals : ℕ
    pub decimals_is : or_missing (rt.mint_decimals w.tokens a.reserve_mint) ≡ ok decimals
    pub checked : withdraw_check rt a m w.tokens ≡ ok tt
    pub positive : require (ltb 0 collateral_amount) LendingError.invalid_amount ≡ ok tt
    pub r' : Reserve
    pub liquidity_amount : ℕ
    pub r'_is : withdraw_reserve clock.slot collateral_amount r ≡ ok (r', liquidity_amount)
    pub t : T
    pub t_is :
        or_failed (
          rt.burn a.collateral_mint a.user_collateral_account a.depositor collateral_amount
            w.tokens)
        ≡ ok t
    pub t' : T
    pub t'_is :
        or_failed (
          rt.transfer_checked a.liquidity_vault a.reserve_mint a.user_token_account a.lending_market
            liquidity_amount decimals t)
        ≡ ok t'
    pub made : w' ≡ put_tokens t' (put_reserve a.reserve r' w)

  pub withdraw-Withdrawn : Ensures Withdrawn (withdraw rt a collateral_amount clock w)
  unfolding withdraw
  withdraw-Withdrawn = step (or_missing (w.markets a.lending_market)) λ m h0.
      step (or_missing (w.reserves a.reserve)) λ r h1.
        step (or_missing (rt.mint_decimals w.tokens a.reserve_mint)) λ decimals h2.
          step (withdraw_check rt a m w.tokens) λ _ h3.
            step (require (ltb 0 collateral_amount) LendingError.invalid_amount) λ _ h4.
              step (withdraw_reserve clock.slot collateral_amount r) λ (r', liquidity_amount) h5.
                step
                  (or_failed (
                    rt.burn a.collateral_mint a.user_collateral_account a.depositor
                      collateral_amount w.tokens))
                  λ t h6.
                    step
                      (or_failed (
                        rt.transfer_checked a.liquidity_vault a.reserve_mint a.user_token_account
                          a.lending_market liquidity_amount decimals t))
                      λ t' h7. returns (record {
                        m = m;
                        m_is = h0;
                        r = r;
                        r_is = h1;
                        decimals = decimals;
                        decimals_is = h2;
                        checked = h3;
                        positive = h4;
                        r' = r';
                        liquidity_amount = liquidity_amount;
                        r'_is = h5;
                        t = t;
                        t_is = h6;
                        t' = t';
                        t'_is = h7;
                        made = refl;
                      })
