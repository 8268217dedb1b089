-- ===== src/Program/Changes/Callbacks.antt =====
-- The callbacks, which store what a computation gave.
use veil_vault.Base.{
  refl, Bool-cases, inl, inr, not, LendingError, ok_or, or_missing, Ensures, step, returns,
}
use veil_vault.Runtime.{Runtime}
use veil_vault.Arcium.{Arcium, callback_accounts_check}
use veil_vault.Private.{Chain, put_private, store_encrypted}
use veil_vault.Private.Setup.{CallbackContext, store_initial, init_position_v2_callback}
use veil_vault.Private.DepositCollateral.{add_collateral_v2_callback}
use veil_vault.Private.Borrow.{add_borrow_v2_callback}
use veil_vault.Private.Check.{flag, check_health_v2_callback}
use veil_vault.Program.{Instruction}
use veil_vault.Program.Changes.Defs.{
  Changes, hit, stored_other, loaded, verified, flag-not, store_encrypted_lem, store_initial_lem,
}

module _ {T Q Out : Type 0} (rt : Runtime T) (ar : Arcium Q Out) where
  pub init_position_v2_callback-Changes :
      (a : CallbackContext) (output : Out) (c : Chain T Q)
      → Ensures
          (Changes rt ar (Instruction.init_position_v2_callback a output) a.private_obligation c)
          (init_position_v2_callback rt ar a output c)
  unfolding init_position_v2_callback
  init_position_v2_callback-Changes a output c =
      step (callback_accounts_check ar "init_position_v2" a.callback c.arcium) λ _ _.
        step (or_missing (c.private_obligations a.private_obligation)) λ po hp.
          step
            (ok_or
              (ar.verify_encrypted a.callback.cluster_account a.callback.computation_account
                c.arcium output)
              LendingError.aborted_computation)
            λ enc he. returns (record {
              after = store_initial enc po;
              written = hit a.private_obligation _ _;
              change = (
                po,
                enc,
                loaded c.private_obligations a.private_obligation po hp,
                verified _ enc he,
                store_initial_lem enc po,
                refl,
              );
              others =
                  stored_other c.private_obligations a.private_obligation (store_initial enc po);
            })

  pub add_collateral_v2_callback-Changes :
      (a : CallbackContext) (output : Out) (c : Chain T Q)
      → Ensures
          (Changes rt ar (Instruction.add_collateral_v2_callback a output) a.private_obligation c)
          (add_collateral_v2_callback rt ar a output c)
  unfolding add_collateral_v2_callback
  add_collateral_v2_callback-Changes a output c =
      step (callback_accounts_check ar "add_collateral_v2" a.callback c.arcium) λ _ _.
        step (or_missing (c.private_obligations a.private_obligation)) λ po hp.
          step
            (ok_or
              (ar.verify_encrypted a.callback.cluster_account a.callback.computation_account
                c.arcium output)
              LendingError.aborted_computation)
            λ enc he. returns (record {
              after = store_encrypted enc po;
              written = hit a.private_obligation _ _;
              change = (
                po,
                enc,
                loaded c.private_obligations a.private_obligation po hp,
                verified _ enc he,
                store_encrypted_lem enc po,
                refl,
              );
              others =
                  stored_other c.private_obligations a.private_obligation (store_encrypted enc po);
            })

  pub add_borrow_v2_callback-Changes :
      (a : CallbackContext) (output : Out) (c : Chain T Q)
      → Ensures
          (Changes rt ar (Instruction.add_borrow_v2_callback a output) a.private_obligation c)
          (add_borrow_v2_callback rt ar a output c)
  unfolding add_borrow_v2_callback
  add_borrow_v2_callback-Changes a output c =
      step (callback_accounts_check ar "add_borrow_v2" a.callback c.arcium) λ _ _.
        step (or_missing (c.private_obligations a.private_obligation)) λ po hp.
          step
            (ok_or
              (ar.verify_encrypted a.callback.cluster_account a.callback.computation_account
                c.arcium output)
              LendingError.aborted_computation)
            λ enc he. returns (record {
              after = store_encrypted enc po;
              written = hit a.private_obligation _ _;
              change = (
                po,
                enc,
                loaded c.private_obligations a.private_obligation po hp,
                verified _ enc he,
                store_encrypted_lem enc po,
                refl,
              );
              others =
                  stored_other c.private_obligations a.private_obligation (store_encrypted enc po);
            })

  pub check_health_v2_callback-Changes :
      (a : CallbackContext) (output : Out) (c : Chain T Q)
      → Ensures
          (Changes rt ar (Instruction.check_health_v2_callback a output) a.private_obligation c)
          (check_health_v2_callback rt ar a output c)
  unfolding check_health_v2_callback
  check_health_v2_callback-Changes a output c =
      step (callback_accounts_check ar "check_health_v2" a.callback c.arcium) λ _ _.
        step (or_missing (c.private_obligations a.private_obligation)) λ po hp.
          step
            (ok_or
              (ar.verify_bool a.callback.cluster_account a.callback.computation_account c.arcium
                output)
              LendingError.aborted_computation)
            λ healthy he.
              let m : Changes rt ar (Instruction.check_health_v2_callback a output)
                  a.private_obligation c (put_private a.private_obligation (flag healthy po) c) =
                record {
                  after = flag healthy po;
                  written = hit a.private_obligation _ _;
                  change = (
                    po,
                    healthy,
                    loaded c.private_obligations a.private_obligation po hp,
                    verified _ healthy he,
                    flag-not healthy po,
                    refl,
                  );
                  others =
                      stored_other c.private_obligations a.private_obligation (flag healthy po);
                } in
              elim (Bool-cases (not healthy)) [
                | inl bad ↦ rw bad (
                    returns (record {
                      after = m.after;
                      written = m.written;
                      change = m.change;
                      others = m.others;
                    }))
                | inr good ↦ rw good (returns m)
              ]
