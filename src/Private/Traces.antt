-- ===== src/Private/Traces.antt =====
-- programs/veilvault/src/instructions, the confidential ones: what a successful run of an
-- instruction passes through.
pub mod Additions
pub mod Liquidation
