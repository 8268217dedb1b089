-- ===== src/Private/Gates.antt =====
-- What the confidential handlers demand of the market, programs/veilvault/src/instructions: its
-- address is the one of its stored owner, and it is not paused where tokens move.
use veil_vault.Base.{ℕ, ◌≡◌, some, false, ok, arith, or_missing, >>=-elim}
use veil_vault.Market.{LendingMarket, is_paused}
use veil_vault.Runtime.{Clock, Runtime}
use veil_vault.Arcium.{Arcium, queue_accounts_check}
use veil_vault.Obligation.{Obligation}
use veil_vault.Reserve.{Reserve}
use veil_vault.Instructions.Gates.{Derived, Admits, found}
use veil_vault.Private.{PrivateObligation, Chain}
use veil_vault.Private.Setup.{
  InitPrivateObligationAccounts, init_private_obligation_check, init_private_obligation,
}
use veil_vault.Private.DepositCollateral.{
  PrivateDepositCollateralAccounts, EncryptedAmount, private_deposit_collateral_check,
  private_deposit_collateral,
}
use veil_vault.Private.Borrow.{PrivateBorrowAccounts, private_borrow_check, private_borrow}
use veil_vault.Private.Check.{
  PrivateCheckLiquidatableAccounts, HealthInputs, private_check_liquidatable_check,
  private_check_liquidatable,
}
use veil_vault.Private.Liquidate.{
  ExecutePrivateLiquidationAccounts, execute_private_liquidation_check, execute_private_liquidation,
}
use veil_vault.Private.Traces.Additions.{private_deposit_collateral-Locked, private_borrow-Borrowed}
use veil_vault.Private.Traces.Liquidation.{execute_private_liquidation-Executed}

module _ {T Q Out : Type 0} (rt : Runtime T) (ar : Arcium Q Out) where
  private_deposit_collateral_check-gate :
      (a : PrivateDepositCollateralAccounts) (k : ℕ) (m : LendingMarket) (po : PrivateObligation)
      (t : T) (q : Q)
      → private_deposit_collateral_check rt ar a k m po t q ≡ ok tt
      → Derived rt m a.lending_market
  unfolding private_deposit_collateral_check
  private_deposit_collateral_check-gate a k m po t q h =
      >>=-elim (queue_accounts_check ar "add_collateral_v2" k a.queue q) _ h λ u e h'. ground arith

  pub private_deposit_collateral-gate :
      (a : PrivateDepositCollateralAccounts) (k n : ℕ) (e : EncryptedAmount) (c c' : Chain T Q)
      → private_deposit_collateral rt ar a k n e c ≡ ok c'
      → Admits rt c.world a.lending_market
  private_deposit_collateral-gate a k n e c c' h =
      let run = (private_deposit_collateral-Locked rt ar a k n e c).holds c' h in
      let open_market = run.open_market in
      (
        run.m,
        found run.m_is,
        private_deposit_collateral_check-gate a k run.m run.po c.world.tokens c.arcium run.checked,
        ground arith,
      )

  private_borrow_check-gate :
      (a : PrivateBorrowAccounts) (k : ℕ) (m : LendingMarket) (po : PrivateObligation) (t : T)
      (q : Q)
      → private_borrow_check rt ar a k m po t q ≡ ok tt
      → Derived rt m a.lending_market
  unfolding private_borrow_check
  private_borrow_check-gate a k m po t q h =
      >>=-elim (queue_accounts_check ar "add_borrow_v2" k a.queue q) _ h λ u e h'. ground arith

  pub private_borrow-gate :
      (a : PrivateBorrowAccounts) (k n : ℕ) (e : EncryptedAmount) (clock : Clock) (c c' : Chain T Q)
      → private_borrow rt ar a k n e clock c ≡ ok c'
      → Admits rt c.world a.lending_market
  private_borrow-gate a k n e clock c c' h =
      let run = (private_borrow-Borrowed rt ar a k n e clock c).holds c' h in
      let open_market = run.open_market in
      (
        run.m,
        found run.m_is,
        private_borrow_check-gate a k run.m run.po c.world.tokens c.arcium run.checked,
        ground arith,
      )

  private_check_liquidatable_check-gate :
      (a : PrivateCheckLiquidatableAccounts) (k : ℕ) (m : LendingMarket) (po : PrivateObligation)
      (q : Q)
      → private_check_liquidatable_check rt ar a k m po q ≡ ok tt
      → Derived rt m a.lending_market
  unfolding private_check_liquidatable_check
  private_check_liquidatable_check-gate a k m po q h =
      >>=-elim (queue_accounts_check ar "check_health_v2" k a.queue q) _ h λ u e h'. ground arith

  pub private_check_liquidatable-gate :
      (a : PrivateCheckLiquidatableAccounts) (k : ℕ) (i : HealthInputs) (c c' : Chain T Q)
      → private_check_liquidatable rt ar a k i c ≡ ok c'
      → (m : LendingMarket) × (c.world.markets a.lending_market ≡ some m)
        × Derived rt m a.lending_market
  unfolding private_check_liquidatable
  private_check_liquidatable-gate a k i c c' h =
      >>=-elim (or_missing (c.world.markets a.lending_market)) _ h λ m e h1.
        >>=-elim (or_missing (c.private_obligations a.private_obligation)) _ h1 λ po e2 h2.
          >>=-elim (private_check_liquidatable_check rt ar a k m po c.arcium) _ h2
            λ u e3 h3. (m, found e, private_check_liquidatable_check-gate a k m po c.arcium e3)

  init_private_obligation_check-gate :
      (a : InitPrivateObligationAccounts) (k : ℕ) (m : LendingMarket) (q : Q)
      → init_private_obligation_check rt ar a k m q ≡ ok tt
      → Derived rt m a.lending_market
  unfolding init_private_obligation_check
  init_private_obligation_check-gate a k m q h =
      >>=-elim (queue_accounts_check ar "init_position_v2" k a.queue q) _ h λ u e h'. ground arith

  pub init_private_obligation-gate :
      (a : InitPrivateObligationAccounts) (k : ℕ) (c c' : Chain T Q)
      → init_private_obligation rt ar a k c ≡ ok c'
      → (m : LendingMarket) × (c.world.markets a.lending_market ≡ some m)
        × Derived rt m a.lending_market
  unfolding init_private_obligation
  init_private_obligation-gate a k c c' h =
      >>=-elim (or_missing (c.world.markets a.lending_market)) _ h λ m e h1.
        >>=-elim (init_private_obligation_check rt ar a k m c.arcium) _ h1
          λ u e2 h2. (m, found e, init_private_obligation_check-gate a k m c.arcium e2)

module _ {T : Type 0} (rt : Runtime T) where
  execute_private_liquidation_check-gate :
      (a : ExecutePrivateLiquidationAccounts) (m : LendingMarket) (po : PrivateObligation)
      (o : Obligation) (rr wr : Reserve) (t : T)
      → execute_private_liquidation_check rt a m po o rr wr t ≡ ok tt
      → Derived rt m a.lending_market × (is_paused m ≡ false)
  unfolding execute_private_liquidation_check
  execute_private_liquidation_check-gate a m po o rr wr t h = ground arith

module _ {T Q : Type 0} (rt : Runtime T) where
  pub execute_private_liquidation-gate :
      (a : ExecutePrivateLiquidationAccounts) (n : ℕ) (clock : Clock) (c c' : Chain T Q)
      → execute_private_liquidation rt a n clock c ≡ ok c'
      → Admits rt c.world a.lending_market
  execute_private_liquidation-gate a n clock c c' h =
      let run = (execute_private_liquidation-Executed rt a n clock c).holds c' h in
      let (derived, unpaused) =
        execute_private_liquidation_check-gate rt a run.m run.po run.o run.rr run.wr c.world.tokens
          run.checked in
      (run.m, found run.m_is, derived, unpaused)
