-- ===== src/Instructions/Traces/Loans.antt =====
-- programs/veilvault/src/instructions/{borrow, repay}.rs: the values and the outcomes of the calls
-- along a successful run.
use veil_vault.Base.{
  ℕ, ◌≡◌, refl, LendingError, ok, require, or_failed, or_missing, ltb, Ensures, step, returns,
}
use veil_vault.Market.{LendingMarket}
use veil_vault.Reserve.{Reserve}
use veil_vault.Obligation.{Obligation}
use veil_vault.Runtime.{Clock, Runtime, World, put_reserve, put_obligation, put_tokens}
use veil_vault.Instructions.Borrow.{
  BorrowAccounts, borrow, borrow_check, borrow_reserve, borrow_obligation,
}
use veil_vault.Instructions.Repay.{
  RepayAccounts, repay, repay_check, repay_reserve, repay_obligation,
}

module _ {T : Type 0} (rt : Runtime T) (a : BorrowAccounts) (amount : ℕ) (clock : Clock)
    (w : World T) where
  pub record Borrowed (w' : World T) : Type 0 where
    pub m : LendingMarket
    pub m_is : or_missing (w.markets a.lending_market) ≡ ok m
    pub o : Obligation
    pub o_is : or_missing (w.obligations a.obligation) ≡ ok o
    pub r : Reserve
    pub r_is : or_missing (w.reserves a.reserve) ≡ ok r
    pub decimals : ℕ
    pub decimals_is : or_missing (rt.mint_decimals w.tokens a.reserve_mint) ≡ ok decimals
    pub checked : borrow_check rt a m w.tokens ≡ ok tt
    pub positive : require (ltb 0 amount) LendingError.invalid_amount ≡ ok tt
    pub r' : Reserve
    pub r'_is : borrow_reserve clock.slot amount r ≡ ok r'
    pub o' : Obligation
    pub o'_is :
        borrow_obligation a.reserve amount
          (r'.liquidity.cumulative_borrow_rate_sf)
          (r'.liquidity.market_price_sf)
          clock.slot
          o
        ≡ ok o'
    pub t : T
    pub t_is :
        or_failed (
          rt.transfer_checked a.liquidity_vault a.reserve_mint a.user_token_account a.lending_market
            amount decimals w.tokens)
        ≡ ok t
    pub made : w' ≡ put_tokens t (put_obligation a.obligation o' (put_reserve a.reserve r' w))

  pub borrow-Borrowed : Ensures Borrowed (borrow rt a amount clock w)
  unfolding borrow
  borrow-Borrowed = step (or_missing (w.markets a.lending_market)) λ m h0.
      step (or_missing (w.obligations a.obligation)) λ o h1.
        step (or_missing (w.reserves a.reserve)) λ r h2.
          step (or_missing (rt.mint_decimals w.tokens a.reserve_mint)) λ decimals h3.
            step (borrow_check rt a m w.tokens) λ _ h4.
              step (require (ltb 0 amount) LendingError.invalid_amount) λ _ h5.
                step (borrow_reserve clock.slot amount r) λ r' h6.
                  step
                    (borrow_obligation a.reserve amount (r'.liquidity.cumulative_borrow_rate_sf)
                      (r'.liquidity.market_price_sf) clock.slot o)
                    λ o' h7.
                      step
                        (or_failed (
                          rt.transfer_checked a.liquidity_vault a.reserve_mint a.user_token_account
                            a.lending_market amount decimals w.tokens))
                        λ t h8. returns (record {
                          m = m;
                          m_is = h0;
                          o = o;
                          o_is = h1;
                          r = r;
                          r_is = h2;
                          decimals = decimals;
                          decimals_is = h3;
                          checked = h4;
                          positive = h5;
                          r' = r';
                          r'_is = h6;
                          o' = o';
                          o'_is = h7;
                          t = t;
                          t_is = h8;
                          made = refl;
                        })

module _ {T : Type 0} (rt : Runtime T) (a : RepayAccounts) (amount : ℕ) (clock : Clock)
    (w : World T) where
  pub record Repaid (w' : World T) : Type 0 where
    pub m : LendingMarket
    pub m_is : or_missing (w.markets a.lending_market) ≡ ok m
    pub o : Obligation
    pub o_is : or_missing (w.obligations a.obligation) ≡ ok o
    pub r : Reserve
    pub r_is : or_missing (w.reserves a.reserve) ≡ ok r
    pub decimals : ℕ
    pub decimals_is : or_missing (rt.mint_decimals w.tokens a.reserve_mint) ≡ ok decimals
    pub checked : repay_check rt a m w.tokens ≡ ok tt
    pub positive : require (ltb 0 amount) LendingError.invalid_amount ≡ ok tt
    pub r' : Reserve
    pub index : ℕ
    pub r'_is : repay_reserve clock.slot amount r ≡ ok (r', index)
    pub o' : Obligation
    pub o'_is : repay_obligation a.reserve amount index o ≡ ok o'
    pub t : T
    pub t_is :
        or_failed (
          rt.transfer_checked a.user_token_account a.reserve_mint a.liquidity_vault a.borrower
            amount decimals w.tokens)
        ≡ ok t
    pub made : w' ≡ put_tokens t (put_obligation a.obligation o' (put_reserve a.reserve r' w))

  pub repay-Repaid : Ensures Repaid (repay rt a amount clock w)
  unfolding repay
  repay-Repaid = step (or_missing (w.markets a.lending_market)) λ m h0.
      step (or_missing (w.obligations a.obligation)) λ o h1.
        step (or_missing (w.reserves a.reserve)) λ r h2.
          step (or_missing (rt.mint_decimals w.tokens a.reserve_mint)) λ decimals h3.
            step (repay_check rt a m w.tokens) λ _ h4.
              step (require (ltb 0 amount) LendingError.invalid_amount) λ _ h5.
                step (repay_reserve clock.slot amount r) λ (r', index) h6.
                  step (repay_obligation a.reserve amount index o) λ o' h7.
                    step
                      (or_failed (
                        rt.transfer_checked a.user_token_account a.reserve_mint a.liquidity_vault
                          a.borrower amount decimals w.tokens))
                      λ t h8. returns (record {
                        m = m;
                        m_is = h0;
                        o = o;
                        o_is = h1;
                        r = r;
                        r_is = h2;
                        decimals = decimals;
                        decimals_is = h3;
                        checked = h4;
                        positive = h5;
                        r' = r';
                        index = index;
                        r'_is = h6;
                        o' = o';
                        o'_is = h7;
                        t = t;
                        t_is = h8;
                        made = refl;
                      })
