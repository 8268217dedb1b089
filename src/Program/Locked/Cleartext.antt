-- ===== src/Program/Locked/Cleartext.antt =====
-- The cleartext instructions that move tokens, and what positions have locked.
use mathlib.Core.Path.{subst}
use veil_vault.Base.{ℕ, ◌≡◌, sym, ok, arith, Ensures, follows}
use veil_vault.Runtime.{Clock, Runtime, World}
use veil_vault.Tokens.{IsWallet, AddressLaws, TokenLaws, locker_of}
use veil_vault.Tokens.Effects.{Ledger}
use veil_vault.Obligation.Deposits.{deposit-Updated}
use veil_vault.Instructions.Deposit.{DepositAccounts, deposit}
use veil_vault.Instructions.Withdraw.{WithdrawAccounts, withdraw}
use veil_vault.Instructions.DepositCollateral.{
  DepositCollateralAccounts, deposit_collateral, deposit_collateral_check,
}
use veil_vault.Instructions.WithdrawCollateral.{WithdrawCollateralAccounts, withdraw_collateral}
use veil_vault.Instructions.WithdrawCollateral.Healthy.{withdraw_obligation-is_healthy}
use veil_vault.Instructions.Borrow.{BorrowAccounts, borrow}
use veil_vault.Instructions.Borrow.Covered.{borrow_obligation-covered}
use veil_vault.Instructions.Repay.{RepayAccounts, repay}
use veil_vault.Instructions.Traces.Supply.{deposit-Deposited, withdraw-Withdrawn}
use veil_vault.Instructions.Traces.Collateral.{
  deposit_collateral-Locked, withdraw_collateral-Released,
}
use veil_vault.Instructions.Traces.Loans.{borrow-Borrowed, repay-Repaid}
use veil_vault.Market.{LendingMarket}
use veil_vault.Program.Sound.{IsSound, loaded-ne, loaded-position}
use veil_vault.Program.Backing.Calls.{transferred, issues, burnt}
use veil_vault.Program.Backing.Cleartext.{
  withdraw_check-accounts, withdraw_collateral_check-account, borrow_check-account,
}
use veil_vault.Program.Locked.Defs.{
  IsSecured, held-AllSecured, stored-SameReserves, same-SameLocks, stored-SameLocks,
}
use veil_vault.Program.Locked.Moves.{
  wallet-Holds, vault-Holds, mint-Holds, burn-Holds, Holds-trans, locked-AllSecured,
  released-AllSecured,
}
use veil_vault.Program.Locked.Positions.{equal-SameDeposits, repay_obligation-deposits}

module _ {T : Type 0} (rt : Runtime T) (m : LendingMarket) (t : T) where
  deposit_collateral_check-account :
      (a : DepositCollateralAccounts)
      → deposit_collateral_check rt a m t ≡ ok tt
      → a.collateral_supply_vault ≡ locker_of rt a.reserve
  unfolding deposit_collateral_check
  deposit_collateral_check-account a h = ground arith

module _ {T : Type 0} (rt : Runtime T) (l : Ledger T) (laws : TokenLaws rt l)
    (addresses : AddressLaws rt) (n : ℕ) (clock : Clock) (w : World T) (s : IsSound w)
    (all : IsSecured rt l w) where
  pub deposit-IsSecured :
      (a : DepositAccounts)
      → IsWallet rt a.depositor
      → Ensures (IsSecured rt l) (deposit rt a n clock w)
  deposit-IsSecured a wallet = follows (deposit-Deposited rt a n clock w) λ w' h.
      subst (IsSecured rt l) (sym h.made) (
        held-AllSecured all s.no_default _ w.obligations
          (Holds-trans (wallet-Holds (transferred rt l laws _ _ h.t_is) wallet)
            (mint-Holds (issues rt l laws _ h.t'_is)))
          (stored-SameReserves w.reserves a.reserve h.r' h.r_is) (same-SameLocks w.obligations))

  pub withdraw-IsSecured :
      (a : WithdrawAccounts)
      → IsWallet rt a.depositor
      → Ensures (IsSecured rt l) (withdraw rt a n clock w)
  withdraw-IsSecured a wallet = follows (withdraw-Withdrawn rt a n clock w) λ w' h.
      let (vault, _) = withdraw_check-accounts rt h.m w.tokens a h.checked in
      subst (IsSecured rt l) (sym h.made) (
        held-AllSecured all s.no_default _ w.obligations
          (Holds-trans (burn-Holds (burnt rt l laws h.t_is) wallet)
            (vault-Holds (transferred rt l laws _ _ h.t'_is) addresses a.reserve vault))
          (stored-SameReserves w.reserves a.reserve h.r' h.r_is) (same-SameLocks w.obligations))

  pub borrow-IsSecured : (a : BorrowAccounts) → Ensures (IsSecured rt l) (borrow rt a n clock w)
  borrow-IsSecured a = follows (borrow-Borrowed rt a n clock w) λ w' h.
      let vault = borrow_check-account rt h.m w.tokens a h.checked in
      let moved =
        borrow_obligation-covered a.reserve n (h.r'.liquidity.cumulative_borrow_rate_sf)
          (h.r'.liquidity.market_price_sf) (clock.slot) h.o h.o' (loaded-ne s h.r_is)
          (loaded-position s a.obligation h.o_is) h.o'_is in
      let same = equal-SameDeposits h.o h.o' (moved.3) in
      subst (IsSecured rt l) (sym h.made) (
        held-AllSecured all s.no_default _ _
          (vault-Holds (transferred rt l laws _ _ h.t_is) addresses a.reserve vault)
          (stored-SameReserves w.reserves a.reserve h.r' h.r_is)
          (stored-SameLocks w.obligations a.obligation h.o' h.o_is λ k ne. same.same k))

  pub repay-IsSecured :
      (a : RepayAccounts) → IsWallet rt a.borrower → Ensures (IsSecured rt l) (repay rt a n clock w)
  repay-IsSecured a wallet = follows (repay-Repaid rt a n clock w) λ w' h.
      let same =
        equal-SameDeposits h.o h.o'
          ((repay_obligation-deposits a.reserve n h.index h.o).holds h.o' h.o'_is) in
      subst (IsSecured rt l) (sym h.made) (
        held-AllSecured all s.no_default _ _
          (wallet-Holds (transferred rt l laws _ _ h.t_is) wallet)
          (stored-SameReserves w.reserves a.reserve h.r' h.r_is)
          (stored-SameLocks w.obligations a.obligation h.o' h.o_is λ k ne. same.same k))

  pub deposit_collateral-IsSecured :
      (a : DepositCollateralAccounts)
      → IsWallet rt a.depositor
      → Ensures (IsSecured rt l) (deposit_collateral rt a n clock w)
  deposit_collateral-IsSecured a wallet = follows (deposit_collateral-Locked rt a n clock w) λ w' h.
      let moved =
        deposit-Updated a.reserve n h.o h.o' (loaded-ne s h.r_is)
          (loaded-position s a.obligation h.o_is) h.o'_is in
      subst (IsSecured rt l) (sym h.made) (
        locked-AllSecured all s.no_default addresses a.reserve a.obligation h.o' h.r_is h.o_is
          (transferred rt l laws _ _ h.t_is) wallet
          (deposit_collateral_check-account rt h.m w.tokens a h.checked) (moved.1))

  pub withdraw_collateral-IsSecured :
      (a : WithdrawCollateralAccounts)
      → Ensures (IsSecured rt l) (withdraw_collateral rt a n clock w)
  withdraw_collateral-IsSecured a = follows (withdraw_collateral-Released rt a n clock w) λ w' h.
      let moved =
        withdraw_obligation-is_healthy a.reserve n (clock.slot) h.o h.o' (loaded-ne s h.r_is)
          (loaded-position s a.obligation h.o_is) h.o'_is in
      subst (IsSecured rt l) (sym h.made) (
        released-AllSecured all s.no_default addresses a.reserve a.obligation h.o' h.r_is h.o_is
          (transferred rt l laws _ _ h.t_is)
          (withdraw_collateral_check-account rt h.m w.tokens a h.checked) (moved.3) (moved.4))
