-- ===== src/Tests.antt =====
-- Runs of the theorems at concrete states.
mod ReserveTests
mod ConfigTests
mod ObligationTests
mod InstructionTests
mod AdminTests
mod CircuitTests
mod PrivateTests
mod LifecycleTests
mod TokenProgram
mod VaultTests
mod LockedTests
mod RefreshTests
