-- ===== src/Program/Cleartext.antt =====
-- The cleartext instructions of lib.rs and the invariant of Program/Sound.
mod Supply
mod Loans
mod Liquidation
mod Admin
pub use Supply.*
pub use Loans.*
pub use Liquidation.*
pub use Admin.*
