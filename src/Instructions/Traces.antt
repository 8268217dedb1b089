-- ===== src/Instructions/Traces.antt =====
-- programs/veilvault/src/instructions: what a successful run of an instruction passes through.
pub mod Supply
pub mod Collateral
pub mod Loans
pub mod Liquidation
pub mod Admin
