-- ===== src/Program/Cleartext/Loans.antt =====
-- Loans, repayments and refreshes under the invariant of Program/Sound.
use mathlib.Core.Path.{subst}
use veil_vault.Base.{sym, follows}
use veil_vault.Instructions.Traces.Loans.{borrow-Borrowed, repay-Repaid}
use veil_vault.Base.{
  ℕ, Option, Constraint, LendingError, require, constrain, or_missing, ◌==◌, Ensures, step, returns,
}
use veil_vault.Prices.{PriceUpdate}
use veil_vault.Runtime.{Clock, Runtime, World, check_market_seeds}
use veil_vault.Instructions.Borrow.{BorrowAccounts, borrow}
use veil_vault.Instructions.Repay.{RepayAccounts, repay}
use veil_vault.Instructions.RefreshReserve.{RefreshReserveAccounts, refresh_reserve, refresh}
use veil_vault.Instructions.RefreshObligation.{RefreshObligationAccounts, refresh_obligation}
use veil_vault.Instructions.RefreshObligation
use veil_vault.Instructions.Borrow.Covered.{borrow_obligation-covered}
use veil_vault.Program.Sound.{
  IsSound, loaded-ne, loaded-position, rewrite-Sound, put_obligation-Sound,
}
use veil_vault.Program.Pools.{borrow_reserve-config, repay_reserve-config, refresh-config}
use veil_vault.Program.Positions.{repay_obligation-IsValid, refresh-IsValid}

module _ {T : Type 0} (rt : Runtime T) where
  pub borrow-IsSound :
      (a : BorrowAccounts) (amount : ℕ) (clock : Clock) (w : World T)
      → IsSound w
      → Ensures IsSound (borrow rt a amount clock w)
  borrow-IsSound a amount clock w s = follows (borrow-Borrowed rt a amount clock w) λ w' h.
      let s1 =
        rewrite-Sound s a.reserve h.r h.r' h.r_is
          ((borrow_reserve-config (clock.slot) amount h.r).holds h.r' h.r'_is) in
      let valid =
        borrow_obligation-covered a.reserve amount (h.r'.liquidity.cumulative_borrow_rate_sf)
          (h.r'.liquidity.market_price_sf) (clock.slot) h.o h.o' (loaded-ne s h.r_is)
          (loaded-position s a.obligation h.o_is) h.o'_is in
      subst IsSound (sym h.made) (put_obligation-Sound s1 a.obligation h.o' (valid.1))

  pub repay-IsSound :
      (a : RepayAccounts) (amount : ℕ) (clock : Clock) (w : World T)
      → IsSound w
      → Ensures IsSound (repay rt a amount clock w)
  repay-IsSound a amount clock w s = follows (repay-Repaid rt a amount clock w) λ w' h.
      let s1 =
        rewrite-Sound s a.reserve h.r h.r' h.r_is
          ((repay_reserve-config (clock.slot) amount h.r).holds (h.r', h.index) h.r'_is) in
      let valid =
        (repay_obligation-IsValid a.reserve (loaded-ne s h.r_is) h.o
            (loaded-position s a.obligation h.o_is) amount h.index).holds
          h.o' h.o'_is in
      subst IsSound (sym h.made) (put_obligation-Sound s1 a.obligation h.o' valid)

  pub refresh_reserve-IsSound :
      (a : RefreshReserveAccounts) (update : Option PriceUpdate) (clock : Clock) (w : World T)
      → IsSound w
      → Ensures IsSound (refresh_reserve rt a update clock w)
  unfolding refresh_reserve
  refresh_reserve-IsSound a update clock w s = step (or_missing (w.markets a.lending_market)) λ m _.
      step (or_missing (w.reserves a.reserve)) λ r hr.
        step (check_market_seeds rt m.owner m a.lending_market) λ _ _.
          step (require (r.lending_market == a.lending_market) LendingError.invalid_config) λ _ _.
            step (refresh a.pyth_price_update update clock r) λ r' hp. returns (
              rewrite-Sound s a.reserve r r' hr
                ((refresh-config a.pyth_price_update update clock r).holds r' hp))

  pub refresh_obligation-IsSound :
      (a : RefreshObligationAccounts) (clock : Clock) (w : World T)
      → IsSound w
      → Ensures IsSound (refresh_obligation a clock w)
  unfolding refresh_obligation
  refresh_obligation-IsSound a clock w s = step (or_missing (w.markets a.lending_market)) λ m _.
      step (or_missing (w.obligations a.obligation)) λ o ho.
        step (constrain (o.lending_market == a.lending_market) Constraint.constraint_has_one) λ _ _.
          step (RefreshObligation.refresh w.reserves a.remaining_accounts clock o) λ o' hd.
            returns (
              put_obligation-Sound s a.obligation o' (
                (refresh-IsValid w.reserves a.remaining_accounts clock o
                    (loaded-position s a.obligation ho)).holds
                  o' hd))
