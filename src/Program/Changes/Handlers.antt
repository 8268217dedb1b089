-- ===== src/Program/Changes/Handlers.antt =====
-- The handlers: they queue a computation, but for the liquidation.
use veil_vault.Base.{
  ℕ, Bool, true, ◌≡◌, refl, false, [], LendingError, require, or_failed, or_missing, arith, Ensures,
  step, returns, sym, follows, ok,
}
use mathlib.Core.Path.{subst}
use veil_vault.Runtime.{Clock, Runtime}
use veil_vault.Arcium.{Arcium}
use veil_vault.Private.{Chain, private_seeds}
use veil_vault.Private.Setup.{
  InitPrivateObligationAccounts, reset, or_new, init_private_obligation_check,
  init_private_obligation,
}
use veil_vault.Private.DepositCollateral.{
  PrivateDepositCollateralAccounts, EncryptedAmount, note_collateral_reserve,
  private_deposit_collateral,
}
use veil_vault.Private.Borrow.{PrivateBorrowAccounts, note_borrow_reserve, private_borrow}
use veil_vault.Private.Check.{
  PrivateCheckLiquidatableAccounts, HealthInputs, check_args, private_check_liquidatable_check,
  private_check_liquidatable,
}
use veil_vault.Private.Liquidate.{ExecutePrivateLiquidationAccounts, execute_private_liquidation}
use veil_vault.Private.Traces.Additions.{private_deposit_collateral-Locked, private_borrow-Borrowed}
use veil_vault.Private.Traces.Liquidation.{execute_private_liquidation-Executed}
use veil_vault.Program.{Instruction}
use veil_vault.Program.Changes.Defs.{
  Changes, hit, stored_other, loaded, queued, note_collateral_reserve-noted,
  note_borrow_reserve-noted,
}

is_true : (b : Bool) → require b LendingError.private_obligation_not_initialized ≡ ok tt → b ≡ true
is_true b h = ground arith

module _ {T Q Out : Type 0} (rt : Runtime T) (ar : Arcium Q Out) where
  pub init_private_obligation-Changes :
      (a : InitPrivateObligationAccounts) (n : ℕ) (c : Chain T Q)
      → Ensures
          (Changes rt ar (Instruction.init_private_obligation a n) a.private_obligation c)
          (init_private_obligation rt ar a n c)
  unfolding init_private_obligation reset
  init_private_obligation-Changes a n c =
      step (or_missing (c.world.markets a.lending_market)) λ m _.
        step (init_private_obligation_check rt ar a n m c.arcium) λ _ _.
          step
            (reset (rt.find_program_address (private_seeds a.lending_market a.payer)).1 a.payer
              a.lending_market (or_new (c.private_obligations a.private_obligation)))
            λ po hp.
              step
                (or_failed (
                  ar.queue_computation
                    (record {
                      offset = n;
                      circuit = "init_position_v2";
                      args = [];
                      callback_account = a.private_obligation;
                    })
                    c.arcium))
                λ q hq. returns (record {
                  after = po;
                  written = hit a.private_obligation _ _;
                  change = (ground arith, ground arith, queued _ q hq);
                  others = stored_other c.private_obligations a.private_obligation po;
                })

  pub private_deposit_collateral-Changes :
      (a : PrivateDepositCollateralAccounts) (n m : ℕ) (e : EncryptedAmount) (c : Chain T Q)
      → Ensures
          (Changes rt ar (Instruction.private_deposit_collateral a n m e) a.private_obligation c)
          (private_deposit_collateral rt ar a n m e c)
  private_deposit_collateral-Changes a n m e c =
      follows (private_deposit_collateral-Locked rt ar a n m e c) λ c' h.
        subst
          (Changes rt ar (Instruction.private_deposit_collateral a n m e) a.private_obligation c)
          (sym h.made)
          (record {
            after = note_collateral_reserve a.reserve h.po;
            written = hit a.private_obligation _ _;
            change = (
              h.po,
              loaded c.private_obligations a.private_obligation h.po h.po_is,
              is_true h.po.is_initialized h.initialized,
              note_collateral_reserve-noted a.reserve h.po,
              queued _ h.q h.q_is,
            );
            others =
                stored_other c.private_obligations a.private_obligation
                  (note_collateral_reserve a.reserve h.po);
          })

  pub private_borrow-Changes :
      (a : PrivateBorrowAccounts) (n m : ℕ) (e : EncryptedAmount) (clock : Clock) (c : Chain T Q)
      → Ensures
          (Changes rt ar (Instruction.private_borrow a n m e) a.private_obligation c)
          (private_borrow rt ar a n m e clock c)
  private_borrow-Changes a n m e clock c =
      follows (private_borrow-Borrowed rt ar a n m e clock c) λ c' h.
        subst (Changes rt ar (Instruction.private_borrow a n m e) a.private_obligation c)
          (sym h.made)
          (record {
            after = note_borrow_reserve a.reserve h.po;
            written = hit a.private_obligation _ _;
            change = (
              h.po,
              loaded c.private_obligations a.private_obligation h.po h.po_is,
              is_true h.po.is_initialized h.initialized,
              note_borrow_reserve-noted a.reserve h.po,
              queued _ h.q h.q_is,
            );
            others =
                stored_other c.private_obligations a.private_obligation
                  (note_borrow_reserve a.reserve h.po);
          })

  pub private_check_liquidatable-Changes :
      (a : PrivateCheckLiquidatableAccounts) (n : ℕ) (h : HealthInputs) (c : Chain T Q)
      → Ensures
          (Changes rt ar (Instruction.private_check_liquidatable a n h) a.private_obligation c)
          (private_check_liquidatable rt ar a n h c)
  unfolding private_check_liquidatable
  private_check_liquidatable-Changes a n h c =
      step (or_missing (c.world.markets a.lending_market)) λ m _.
        step (or_missing (c.private_obligations a.private_obligation)) λ po hp.
          step (private_check_liquidatable_check rt ar a n m po c.arcium) λ _ _.
            step (require po.is_initialized LendingError.private_obligation_not_initialized) λ _ hi.
              step
                (or_failed (
                  ar.queue_computation
                    (record {
                      offset = n;
                      circuit = "check_health_v2";
                      args = check_args h po a.private_obligation;
                      callback_account = a.private_obligation;
                    })
                    c.arcium))
                λ q hq.
                  let at = loaded c.private_obligations a.private_obligation po hp in
                  returns (record {
                    after = po;
                    written = at;
                    change = (at, is_true po.is_initialized hi, queued _ q hq);
                    others = λ j ne. refl;
                  })

  pub execute_private_liquidation-Changes :
      (a : ExecutePrivateLiquidationAccounts) (n : ℕ) (clock : Clock) (c : Chain T Q)
      → Ensures
          (Changes rt ar (Instruction.execute_private_liquidation a n) a.private_obligation c)
          (execute_private_liquidation rt a n clock c)
  execute_private_liquidation-Changes a n clock c =
      follows (execute_private_liquidation-Executed rt a n clock c) λ c' h.
        subst (Changes rt ar (Instruction.execute_private_liquidation a n) a.private_obligation c)
          (sym h.made)
          (let flagged = h.flagged in
            record {
              after = record h.po { is_liquidatable = false };
              written = hit a.private_obligation _ _;
              change = (
                h.po,
                loaded c.private_obligations a.private_obligation h.po h.po_is,
                ground arith,
                refl,
                refl,
              );
              others =
                  stored_other c.private_obligations a.private_obligation
                    (record h.po { is_liquidatable = false });
            })
