-- ===== src/Program/Confidential.antt =====
-- The registrations of circuits, the confidential instructions and the callbacks of lib.rs, with
-- the moves of Program/Records.
mod Registration
mod Moves
mod Checks
pub use Registration.*
pub use Moves.*
pub use Checks.*
