-- ===== src/Instructions.antt =====
-- The instructions, programs/veilvault/src/instructions: one module for each handler.
pub mod Deposit
pub mod Withdraw
pub mod DepositCollateral
pub mod WithdrawCollateral
pub mod Borrow
pub mod Repay
pub mod RefreshReserve
pub mod RefreshObligation
pub mod Liquidate
pub mod Admin
pub mod Traces
pub mod Gates
pub mod Handover
