-- ===== src/Program.antt =====
-- programs/veilvault/src/lib.rs: the entry points of the program and their dispatch.
pub mod Sound
pub mod Pools
pub mod Sides
pub mod Positions
pub mod Cleartext
pub mod Records
pub mod Confidential
pub mod Lasting
pub mod Custody
pub mod NewVaults
pub mod Backing
pub mod Locked
pub mod Changes
pub mod Handover
pub mod Run
pub mod Gated
use Prim.Native.String.{String}
use veil_vault.Base.{ℕ, Bool, Option, Result, ok, ◌>>=◌}
use veil_vault.Constants.{Pubkey}
use veil_vault.Reserve.Config.{InitReserveConfigParams}
use veil_vault.Prices.{PriceUpdate}
use veil_vault.Runtime.{Clock, Runtime, World}
use veil_vault.Instructions.Admin.{
  InitializeMarketAccounts, InitializeMarketArgs, AddReserveAccounts, InitObligationAccounts,
  OwnerAccounts, UpdateReserveConfigAccounts,
}
use veil_vault.Instructions.Admin
use veil_vault.Instructions.Deposit.{DepositAccounts}
use veil_vault.Instructions.Deposit
use veil_vault.Instructions.DepositCollateral.{DepositCollateralAccounts}
use veil_vault.Instructions.DepositCollateral
use veil_vault.Instructions.WithdrawCollateral.{WithdrawCollateralAccounts}
use veil_vault.Instructions.WithdrawCollateral
use veil_vault.Instructions.Borrow.{BorrowAccounts}
use veil_vault.Instructions.Borrow
use veil_vault.Instructions.Repay.{RepayAccounts}
use veil_vault.Instructions.Repay
use veil_vault.Instructions.Withdraw.{WithdrawAccounts}
use veil_vault.Instructions.Withdraw
use veil_vault.Instructions.RefreshReserve.{RefreshReserveAccounts}
use veil_vault.Instructions.RefreshReserve
use veil_vault.Instructions.RefreshObligation.{RefreshObligationAccounts}
use veil_vault.Instructions.RefreshObligation
use veil_vault.Instructions.Liquidate.{LiquidateAccounts}
use veil_vault.Instructions.Liquidate
use veil_vault.Arcium.{Arcium, CompDefAccounts}
use veil_vault.Private.{Chain, put_world}
use veil_vault.Private.Setup.{InitPrivateObligationAccounts, CallbackContext}
use veil_vault.Private.Setup
use veil_vault.Private.DepositCollateral.{PrivateDepositCollateralAccounts, EncryptedAmount}
use veil_vault.Private.Borrow.{PrivateBorrowAccounts}
use veil_vault.Private.Check.{PrivateCheckLiquidatableAccounts, HealthInputs}
use veil_vault.Private.Check
use veil_vault.Private.Liquidate.{ExecutePrivateLiquidationAccounts}
use veil_vault.Private

pub data Instruction (Out : Type 0) : Type 0 where
  initialize_market : InitializeMarketAccounts → InitializeMarketArgs → Instruction Out
  add_reserve : AddReserveAccounts → InitReserveConfigParams → Instruction Out
  deposit : DepositAccounts → (amount : ℕ) → Instruction Out
  deposit_collateral : DepositCollateralAccounts → (collateral_amount : ℕ) → Instruction Out
  withdraw_collateral : WithdrawCollateralAccounts → (collateral_amount : ℕ) → Instruction Out
  init_obligation : InitObligationAccounts → Instruction Out
  borrow : BorrowAccounts → (amount : ℕ) → Instruction Out
  repay : RepayAccounts → (amount : ℕ) → Instruction Out
  withdraw : WithdrawAccounts → (collateral_amount : ℕ) → Instruction Out
  -- with the message that the oracle's account holds
  refresh_reserve : RefreshReserveAccounts → Option PriceUpdate → Instruction Out
  refresh_obligation : RefreshObligationAccounts → Instruction Out
  liquidate : LiquidateAccounts → (repay_amount : ℕ) → Instruction Out
  set_pause : OwnerAccounts → (paused : Bool) → Instruction Out
  update_reserve_config : UpdateReserveConfigAccounts → InitReserveConfigParams → Instruction Out
  update_market_authority : OwnerAccounts → (new_authority : Pubkey) → Instruction Out
  init_position_comp_def : CompDefAccounts → Instruction Out
  add_collateral_comp_def : CompDefAccounts → Instruction Out
  add_borrow_comp_def : CompDefAccounts → Instruction Out
  check_health_comp_def : CompDefAccounts → Instruction Out
  init_private_obligation :
      InitPrivateObligationAccounts → (computation_offset : ℕ) → Instruction Out
  private_deposit_collateral :
      PrivateDepositCollateralAccounts
      → (computation_offset collateral_amount : ℕ) → EncryptedAmount
      → Instruction Out
  private_borrow :
      PrivateBorrowAccounts → (computation_offset amount : ℕ) → EncryptedAmount → Instruction Out
  private_check_liquidatable :
      PrivateCheckLiquidatableAccounts → (computation_offset : ℕ) → HealthInputs → Instruction Out
  execute_private_liquidation :
      ExecutePrivateLiquidationAccounts → (repay_amount : ℕ) → Instruction Out
  init_position_v2_callback : CallbackContext → Out → Instruction Out
  add_collateral_v2_callback : CallbackContext → Out → Instruction Out
  add_borrow_v2_callback : CallbackContext → Out → Instruction Out
  check_health_v2_callback : CallbackContext → Out → Instruction Out

-- A cleartext instruction leaves the world of the chain that it makes.
abbrev pub publicly : {T Q : Type 0} → Result (World T) → Chain T Q → Result (Chain T Q)
publicly m c = do w ← m; ok (put_world w c)

module _ {T Q Out : Type 0} (rt : Runtime T) (ar : Arcium Q Out) (clock : Clock) where
  unfoldable pub process : Instruction Out → Chain T Q → Result (Chain T Q)
  process (Instruction.initialize_market a args) c =
      publicly (Admin.initialize_market rt a args c.world) c
  process (Instruction.add_reserve a args) c =
      publicly (Admin.add_reserve rt a args clock c.world) c
  process (Instruction.deposit a n) c = publicly (Deposit.deposit rt a n clock c.world) c
  process (Instruction.deposit_collateral a n) c =
      publicly (DepositCollateral.deposit_collateral rt a n clock c.world) c
  process (Instruction.withdraw_collateral a n) c =
      publicly (WithdrawCollateral.withdraw_collateral rt a n clock c.world) c
  process (Instruction.init_obligation a) c = publicly (Admin.init_obligation rt a c.world) c
  process (Instruction.borrow a n) c = publicly (Borrow.borrow rt a n clock c.world) c
  process (Instruction.repay a n) c = publicly (Repay.repay rt a n clock c.world) c
  process (Instruction.withdraw a n) c = publicly (Withdraw.withdraw rt a n clock c.world) c
  process (Instruction.refresh_reserve a u) c =
      publicly (RefreshReserve.refresh_reserve rt a u clock c.world) c
  process (Instruction.refresh_obligation a) c =
      publicly (RefreshObligation.refresh_obligation a clock c.world) c
  process (Instruction.liquidate a n) c = publicly (Liquidate.liquidate rt a n clock c.world) c
  process (Instruction.set_pause a b) c = publicly (Admin.set_pause rt a b c.world) c
  process (Instruction.update_reserve_config a args) c =
      publicly (Admin.update_reserve_config rt a args c.world) c
  process (Instruction.update_market_authority a k) c =
      publicly (Admin.update_market_authority rt a k c.world) c
  process (Instruction.init_position_comp_def a) c = Setup.init_position_comp_def rt ar a c
  process (Instruction.add_collateral_comp_def a) c =
      Private.DepositCollateral.add_collateral_comp_def rt ar a c
  process (Instruction.add_borrow_comp_def a) c = Private.Borrow.add_borrow_comp_def rt ar a c
  process (Instruction.check_health_comp_def a) c = Check.check_health_comp_def rt ar a c
  process (Instruction.init_private_obligation a k) c = Setup.init_private_obligation rt ar a k c
  process (Instruction.private_deposit_collateral a k n e) c =
      Private.DepositCollateral.private_deposit_collateral rt ar a k n e c
  process (Instruction.private_borrow a k n e) c =
      Private.Borrow.private_borrow rt ar a k n e clock c
  process (Instruction.private_check_liquidatable a k h) c =
      Check.private_check_liquidatable rt ar a k h c
  process (Instruction.execute_private_liquidation a n) c =
      Private.Liquidate.execute_private_liquidation rt a n clock c
  process (Instruction.init_position_v2_callback a out) c =
      Setup.init_position_v2_callback rt ar a out c
  process (Instruction.add_collateral_v2_callback a out) c =
      Private.DepositCollateral.add_collateral_v2_callback rt ar a out c
  process (Instruction.add_borrow_v2_callback a out) c =
      Private.Borrow.add_borrow_v2_callback rt ar a out c
  process (Instruction.check_health_v2_callback a out) c =
      Check.check_health_v2_callback rt ar a out c
