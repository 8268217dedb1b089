-- ===== src/Program/Backing.antt =====
-- The pools' books against the token program's, through every instruction.
pub mod Defs
pub mod Effects
pub mod Counts
pub mod Worlds
pub mod Calls
pub mod Cleartext
pub mod Opening
pub mod Liquidation
pub mod Confidential
pub mod Others
pub mod Run
