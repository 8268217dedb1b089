-- ===== src/Program/Cleartext/Supply.antt =====
-- Deposits and withdrawals, of tokens and of collateral, under the invariant of Program/Sound.
use mathlib.Core.Path.{subst}
use veil_vault.Base.{ℕ, sym, Ensures, follows}
use veil_vault.Obligation.Deposits.{deposit-Updated}
use veil_vault.Runtime.{Clock, Runtime, World}
use veil_vault.Instructions.Deposit.{DepositAccounts, deposit}
use veil_vault.Instructions.Withdraw.{WithdrawAccounts, withdraw}
use veil_vault.Instructions.DepositCollateral.{DepositCollateralAccounts, deposit_collateral}
use veil_vault.Instructions.WithdrawCollateral.{WithdrawCollateralAccounts, withdraw_collateral}
use veil_vault.Instructions.WithdrawCollateral.Healthy.{withdraw_obligation-is_healthy}
use veil_vault.Instructions.Traces.Supply.{deposit-Deposited, withdraw-Withdrawn}
use veil_vault.Instructions.Traces.Collateral.{
  deposit_collateral-Locked, withdraw_collateral-Released,
}
use veil_vault.Program.Sound.{
  IsSound, loaded-ne, loaded-position, rewrite-Sound, put_obligation-Sound,
}
use veil_vault.Program.Pools.{deposit_reserve-config, withdraw_reserve-config}

module _ {T : Type 0} (rt : Runtime T) where
  pub deposit-IsSound :
      (a : DepositAccounts) (amount : ℕ) (clock : Clock) (w : World T)
      → IsSound w
      → Ensures IsSound (deposit rt a amount clock w)
  deposit-IsSound a amount clock w s = follows (deposit-Deposited rt a amount clock w) λ w' h.
      let kept =
        (deposit_reserve-config (clock.slot) amount (h.r)).holds (h.r', h.collateral_amount)
          h.r'_is in
      subst IsSound (sym h.made) (rewrite-Sound s a.reserve h.r h.r' h.r_is kept)

  pub withdraw-IsSound :
      (a : WithdrawAccounts) (collateral_amount : ℕ) (clock : Clock) (w : World T)
      → IsSound w
      → Ensures IsSound (withdraw rt a collateral_amount clock w)
  withdraw-IsSound a n clock w s = follows (withdraw-Withdrawn rt a n clock w) λ w' h.
      let kept =
        (withdraw_reserve-config (clock.slot) n (h.r)).holds (h.r', h.liquidity_amount) h.r'_is in
      subst IsSound (sym h.made) (rewrite-Sound s a.reserve h.r h.r' h.r_is kept)

  pub deposit_collateral-IsSound :
      (a : DepositCollateralAccounts) (collateral_amount : ℕ) (clock : Clock) (w : World T)
      → IsSound w
      → Ensures IsSound (deposit_collateral rt a collateral_amount clock w)
  deposit_collateral-IsSound a n clock w s =
      follows (deposit_collateral-Locked rt a n clock w) λ w' h.
        let valid =
          deposit-Updated a.reserve n h.o h.o' (loaded-ne s h.r_is)
            (loaded-position s a.obligation h.o_is) h.o'_is in
        subst IsSound (sym h.made) (put_obligation-Sound s a.obligation h.o' (valid.0))

  pub withdraw_collateral-IsSound :
      (a : WithdrawCollateralAccounts) (collateral_amount : ℕ) (clock : Clock) (w : World T)
      → IsSound w
      → Ensures IsSound (withdraw_collateral rt a collateral_amount clock w)
  withdraw_collateral-IsSound a n clock w s =
      follows (withdraw_collateral-Released rt a n clock w) λ w' h.
        let valid =
          withdraw_obligation-is_healthy a.reserve n (clock.slot) h.o h.o' (loaded-ne s h.r_is)
            (loaded-position s a.obligation h.o_is) h.o'_is in
        subst IsSound (sym h.made) (put_obligation-Sound s a.obligation h.o' (valid.1))
