-- ===== src/Instructions/Gates.antt =====
-- What the account checks of the instructions demand of the market, programs/veilvault/src/
-- instructions: its address is the one of its stored owner, and it is not paused.
use veil_vault.Base.{Option}
use veil_vault.Instructions.Traces.Supply.{deposit-Deposited, withdraw-Withdrawn}
use veil_vault.Instructions.Traces.Collateral.{
  deposit_collateral-Locked, withdraw_collateral-Released,
}
use veil_vault.Instructions.Traces.Loans.{borrow-Borrowed, repay-Repaid}
use veil_vault.Base.{ℕ, ◌≡◌, true, false, some, [], ◌∷◌, ok, or_missing, arith}
use veil_vault.Constants.{Pubkey}
use veil_vault.Market.{LendingMarket, is_paused}
use veil_vault.Runtime.{Clock, Runtime, World, is_key, text, key}
use veil_vault.Instructions.Deposit.{DepositAccounts, deposit, deposit_check}
use veil_vault.Instructions.Withdraw.{WithdrawAccounts, withdraw, withdraw_check}
use veil_vault.Instructions.DepositCollateral.{
  DepositCollateralAccounts, deposit_collateral, deposit_collateral_check,
}
use veil_vault.Instructions.WithdrawCollateral.{
  WithdrawCollateralAccounts, withdraw_collateral, withdraw_collateral_check,
}
use veil_vault.Instructions.Borrow.{BorrowAccounts, borrow, borrow_check}
use veil_vault.Instructions.Repay.{RepayAccounts, repay, repay_check}
use veil_vault.Base.{>>=-elim}
use veil_vault.Obligation.{Obligation}
use veil_vault.Reserve.{Reserve}
use veil_vault.Reserve.Config.{InitReserveConfigParams}
use veil_vault.Instructions.Liquidate.{LiquidateAccounts, liquidate, liquidate_check}
use veil_vault.Instructions.Traces.Liquidation.{liquidate-Seized}
use veil_vault.Instructions.Traces.Admin.{add_reserve-Added}
use veil_vault.Instructions.Admin.{
  UpdateReserveConfigAccounts, AddReserveAccounts, check_owner, update_reserve_config, add_reserve,
}

pub found : {o : Option LendingMarket} {m : LendingMarket} → or_missing o ≡ ok m → o ≡ some m
found h = ground arith

module _ {T : Type 0} (rt : Runtime T) where
  -- The address is the one that the market's stored owner and bump give.
  abbrev pub Derived : LendingMarket → Pubkey → Type 0
  Derived m k =
      is_key (rt.create_program_address (text "lending_market" ∷ key m.owner ∷ []) m.bump) k ≡ true

  -- The market at an address, as the instructions that move tokens demand it.
  abbrev pub Admits : World T → Pubkey → Type 0
  Admits w k = (m : LendingMarket) × (w.markets k ≡ some m) × Derived m k × (is_paused m ≡ false)

  deposit_check-gate :
      (a : DepositAccounts) (m : LendingMarket) (t : T)
      → deposit_check rt a m t ≡ ok tt
      → Derived m a.lending_market × (is_paused m ≡ false)
  unfolding deposit_check
  deposit_check-gate a m t h = ground arith

  pub deposit-gate :
      (a : DepositAccounts) (n : ℕ) (clock : Clock) (w w' : World T)
      → deposit rt a n clock w ≡ ok w'
      → Admits w a.lending_market
  deposit-gate a n clock w w' h =
      let run = (deposit-Deposited rt a n clock w).holds w' h in
      let (derived, unpaused) = deposit_check-gate a run.m w.tokens run.checked in
      (run.m, found run.m_is, derived, unpaused)

  withdraw_check-gate :
      (a : WithdrawAccounts) (m : LendingMarket) (t : T)
      → withdraw_check rt a m t ≡ ok tt
      → Derived m a.lending_market × (is_paused m ≡ false)
  unfolding withdraw_check
  withdraw_check-gate a m t h = ground arith

  pub withdraw-gate :
      (a : WithdrawAccounts) (n : ℕ) (clock : Clock) (w w' : World T)
      → withdraw rt a n clock w ≡ ok w'
      → Admits w a.lending_market
  withdraw-gate a n clock w w' h =
      let run = (withdraw-Withdrawn rt a n clock w).holds w' h in
      let (derived, unpaused) = withdraw_check-gate a run.m w.tokens run.checked in
      (run.m, found run.m_is, derived, unpaused)

  deposit_collateral_check-gate :
      (a : DepositCollateralAccounts) (m : LendingMarket) (t : T)
      → deposit_collateral_check rt a m t ≡ ok tt
      → Derived m a.lending_market × (is_paused m ≡ false)
  unfolding deposit_collateral_check
  deposit_collateral_check-gate a m t h = ground arith

  pub deposit_collateral-gate :
      (a : DepositCollateralAccounts) (n : ℕ) (clock : Clock) (w w' : World T)
      → deposit_collateral rt a n clock w ≡ ok w'
      → Admits w a.lending_market
  deposit_collateral-gate a n clock w w' h =
      let run = (deposit_collateral-Locked rt a n clock w).holds w' h in
      let (derived, unpaused) = deposit_collateral_check-gate a run.m w.tokens run.checked in
      (run.m, found run.m_is, derived, unpaused)

  withdraw_collateral_check-gate :
      (a : WithdrawCollateralAccounts) (m : LendingMarket) (t : T)
      → withdraw_collateral_check rt a m t ≡ ok tt
      → Derived m a.lending_market × (is_paused m ≡ false)
  unfolding withdraw_collateral_check
  withdraw_collateral_check-gate a m t h = ground arith

  pub withdraw_collateral-gate :
      (a : WithdrawCollateralAccounts) (n : ℕ) (clock : Clock) (w w' : World T)
      → withdraw_collateral rt a n clock w ≡ ok w'
      → Admits w a.lending_market
  withdraw_collateral-gate a n clock w w' h =
      let run = (withdraw_collateral-Released rt a n clock w).holds w' h in
      let (derived, unpaused) = withdraw_collateral_check-gate a run.m w.tokens run.checked in
      (run.m, found run.m_is, derived, unpaused)

  borrow_check-gate :
      (a : BorrowAccounts) (m : LendingMarket) (t : T)
      → borrow_check rt a m t ≡ ok tt
      → Derived m a.lending_market × (is_paused m ≡ false)
  unfolding borrow_check
  borrow_check-gate a m t h = ground arith

  pub borrow-gate :
      (a : BorrowAccounts) (n : ℕ) (clock : Clock) (w w' : World T)
      → borrow rt a n clock w ≡ ok w'
      → Admits w a.lending_market
  borrow-gate a n clock w w' h =
      let run = (borrow-Borrowed rt a n clock w).holds w' h in
      let (derived, unpaused) = borrow_check-gate a run.m w.tokens run.checked in
      (run.m, found run.m_is, derived, unpaused)

  repay_check-gate :
      (a : RepayAccounts) (m : LendingMarket) (t : T)
      → repay_check rt a m t ≡ ok tt
      → Derived m a.lending_market
  unfolding repay_check
  repay_check-gate a m t h = ground arith

  pub repay-gate :
      (a : RepayAccounts) (n : ℕ) (clock : Clock) (w w' : World T)
      → repay rt a n clock w ≡ ok w'
      → (m : LendingMarket) × (w.markets a.lending_market ≡ some m) × Derived m a.lending_market
  repay-gate a n clock w w' h =
      let run = (repay-Repaid rt a n clock w).holds w' h in
      (run.m, found run.m_is, repay_check-gate a run.m w.tokens run.checked)

  liquidate_check-gate :
      (a : LiquidateAccounts) (m : LendingMarket) (o : Obligation) (rr wr : Reserve) (t : T)
      → liquidate_check rt a m o rr wr t ≡ ok tt
      → Derived m a.lending_market × (is_paused m ≡ false)
  unfolding liquidate_check
  liquidate_check-gate a m o rr wr t h = ground arith

  pub liquidate-gate :
      (a : LiquidateAccounts) (n : ℕ) (clock : Clock) (w w' : World T)
      → liquidate rt a n clock w ≡ ok w'
      → Admits w a.lending_market
  liquidate-gate a n clock w w' h =
      let run = (liquidate-Seized rt a n clock w).holds w' h in
      let (derived, unpaused) =
        liquidate_check-gate a run.m run.o run.rr run.wr w.tokens run.checked in
      (run.m, found run.m_is, derived, unpaused)

  -- An owner's instruction asks for the stored owner, and for the address.
  pub check_owner-gate :
      (owner k : Pubkey) (m : LendingMarket)
      → check_owner rt owner k m ≡ ok tt
      → (m.owner ≡ owner) × Derived m k
  unfolding check_owner
  check_owner-gate owner k m h = ground arith

  pub update_reserve_config-gate :
      (a : UpdateReserveConfigAccounts) (p : InitReserveConfigParams) (w w' : World T)
      → update_reserve_config rt a p w ≡ ok w'
      → (m : LendingMarket) × (w.markets a.lending_market ≡ some m) × Derived m a.lending_market
  unfolding update_reserve_config
  update_reserve_config-gate a p w w' h =
      >>=-elim (or_missing (w.markets a.lending_market)) _ h λ m e k.
        >>=-elim (or_missing (w.reserves a.reserve)) _ k λ r e' k'.
          >>=-elim (check_owner rt a.owner a.lending_market m) _ k'
            λ u q k''. (m, found e, (check_owner-gate a.owner a.lending_market m q).1)

  pub add_reserve-gate :
      (a : AddReserveAccounts) (p : InitReserveConfigParams) (clock : Clock) (w w' : World T)
      → add_reserve rt a p clock w ≡ ok w'
      → Admits w a.lending_market
  add_reserve-gate a p clock w w' h =
      let run = (add_reserve-Added rt a p clock w).holds w' h in
      let open_market = run.open_market in
      (
        run.m,
        found run.m_is,
        (check_owner-gate a.owner a.lending_market run.m run.checked).1,
        ground arith,
      )
