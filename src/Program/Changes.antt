-- ===== src/Program/Changes.antt =====
-- The confidential instructions of lib.rs and the callbacks, on the record that they are about.
pub mod Defs
mod Handlers
mod Callbacks
use veil_vault.Base.{◌≡◌, some, ok}
use mathlib.Core.Path.{subst}
use veil_vault.Constants.{Pubkey}
use veil_vault.Runtime.{Clock, Runtime}
use veil_vault.Arcium.{Arcium}
use veil_vault.Private.{Chain}
use veil_vault.Program.{Instruction, process}
use Defs.{target, Changes}
use Handlers.{
  init_private_obligation-Changes, private_deposit_collateral-Changes, private_borrow-Changes,
  private_check_liquidatable-Changes, execute_private_liquidation-Changes,
}
use Callbacks.{
  init_position_v2_callback-Changes, add_collateral_v2_callback-Changes,
  add_borrow_v2_callback-Changes, check_health_v2_callback-Changes,
}

retarget :
    {T Q Out : Type 0} (rt : Runtime T) (ar : Arcium Q Out) (i : Instruction Out) (c c' : Chain T Q)
    {j k : Pubkey}
    → some j ≡ some k
    → Changes rt ar i j c c'
    → Changes rt ar i k c c'
retarget rt ar i c c' {j} {k} e h =
    let same : j ≡ k = cc in subst (λ x. Changes rt ar i x c c') same h

-- A confidential instruction or a callback that succeeds changes the record that it is about, and
-- no other, in this way. `init_private_obligation` is for a record that is not initialized: it
-- writes owner, market and bump, clears both reserves and the flag and leaves the encrypted
-- position. A deposit or a loan is for an initialized record, and notes its reserve on its own side
-- where none is noted; a health check is for an initialized record and leaves it. Each of these four
-- queues one computation, of its own circuit and for this record. A liquidation is for a flagged
-- record, and clears the flag. The callback of the first position stores the verified output and
-- makes the record initialized, whatever it was before; that of an addition stores the output; that
-- of a health check sets the flag to whether the output says unhealthy.
pub process-Changes :
    {T Q Out : Type 0} (rt : Runtime T) (ar : Arcium Q Out) (clock : Clock) (i : Instruction Out)
    (c c' : Chain T Q) (k : Pubkey)
    → target i ≡ some k
    → process rt ar clock i c ≡ ok c'
    → Changes rt ar i k c c'
unfolding process
process-Changes rt ar clock (Instruction.init_private_obligation a n) c c' k e h =
    retarget rt ar _ c c' e ((init_private_obligation-Changes rt ar a n c).holds c' h)
process-Changes rt ar clock (Instruction.private_deposit_collateral a n m d) c c' k e h =
    retarget rt ar _ c c' e ((private_deposit_collateral-Changes rt ar a n m d c).holds c' h)
process-Changes rt ar clock (Instruction.private_borrow a n m d) c c' k e h =
    retarget rt ar _ c c' e ((private_borrow-Changes rt ar a n m d clock c).holds c' h)
process-Changes rt ar clock (Instruction.private_check_liquidatable a n d) c c' k e h =
    retarget rt ar _ c c' e ((private_check_liquidatable-Changes rt ar a n d c).holds c' h)
process-Changes rt ar clock (Instruction.execute_private_liquidation a n) c c' k e h =
    retarget rt ar _ c c' e ((execute_private_liquidation-Changes rt ar a n clock c).holds c' h)
process-Changes rt ar clock (Instruction.init_position_v2_callback a out) c c' k e h =
    retarget rt ar _ c c' e ((init_position_v2_callback-Changes rt ar a out c).holds c' h)
process-Changes rt ar clock (Instruction.add_collateral_v2_callback a out) c c' k e h =
    retarget rt ar _ c c' e ((add_collateral_v2_callback-Changes rt ar a out c).holds c' h)
process-Changes rt ar clock (Instruction.add_borrow_v2_callback a out) c c' k e h =
    retarget rt ar _ c c' e ((add_borrow_v2_callback-Changes rt ar a out c).holds c' h)
process-Changes rt ar clock (Instruction.check_health_v2_callback a out) c c' k e h =
    retarget rt ar _ c c' e ((check_health_v2_callback-Changes rt ar a out c).holds c' h)
process-Changes rt ar clock _ c c' k e h = absurd cc
