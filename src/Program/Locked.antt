-- ===== src/Program/Locked.antt =====
-- What positions have locked against the token accounts that hold it, through every instruction.
pub mod Sums
pub mod Defs
pub mod Moves
pub mod Opening
pub mod Positions
pub mod Cleartext
pub mod Liquidation
pub mod Confidential
pub mod Others
pub mod Run
