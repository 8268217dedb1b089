-- ===== src/Program/Confidential/Checks.antt =====
-- Health checks and confidential liquidations (private_liquidate.rs).
use mathlib.Core.Path.{subst}
use veil_vault.Base.{sym, follows, false}
use veil_vault.Private.Traces.Liquidation.{execute_private_liquidation-Executed}
use veil_vault.Program.Sides.{sides-Sound}
use veil_vault.Base.{
  ℕ, refl, Bool-cases, inl, inr, not, LendingError, ok_or, require, or_failed, or_missing, Ensures,
  step, returns,
}
use veil_vault.Runtime.{Clock, Runtime}
use veil_vault.Arcium.{Arcium, callback_accounts_check}
use veil_vault.Private.{LiquidatableEvent, Chain, put_private}
use veil_vault.Private.Setup.{CallbackContext}
use veil_vault.Private.Check.{
  PrivateCheckLiquidatableAccounts, HealthInputs, check_args, flag,
  private_check_liquidatable_check, private_check_liquidatable, check_health_v2_callback,
}
use veil_vault.Private.Liquidate.{ExecutePrivateLiquidationAccounts, execute_private_liquidation}
use veil_vault.Program.Sound.{IsSound, loaded-ne, loaded-position, put_obligation-Sound}
use veil_vault.Program.Positions.{private_liquidate_obligation-IsValid}
use veil_vault.Program.Records.{Keeps, same, rewritten, flag-SameRecord}

module _ {T Q Out : Type 0} (rt : Runtime T) (ar : Arcium Q Out) where
  pub private_check_liquidatable-Keeps :
      (a : PrivateCheckLiquidatableAccounts) (computation_offset : ℕ) (h : HealthInputs)
      (c : Chain T Q)
      → IsSound c.world
      → Ensures (Keeps rt c) (private_check_liquidatable rt ar a computation_offset h c)
  unfolding private_check_liquidatable
  private_check_liquidatable-Keeps a computation_offset h c s =
      step (or_missing (c.world.markets a.lending_market)) λ m _.
        step (or_missing (c.private_obligations a.private_obligation)) λ po _.
          step (private_check_liquidatable_check rt ar a computation_offset m po c.arcium) λ _ _.
            step (require po.is_initialized LendingError.private_obligation_not_initialized) λ _ _.
              step
                (or_failed (
                  ar.queue_computation
                    (record {
                      offset = computation_offset;
                      circuit = "check_health_v2";
                      args = check_args h po a.private_obligation;
                      callback_account = a.private_obligation;
                    })
                    c.arcium))
                λ q _. returns (s, same)

  pub check_health_v2_callback-Keeps :
      (a : CallbackContext) (output : Out) (c : Chain T Q)
      → IsSound c.world
      → Ensures (Keeps rt c) (check_health_v2_callback rt ar a output c)
  unfolding check_health_v2_callback
  check_health_v2_callback-Keeps a output c s =
      step (callback_accounts_check ar "check_health_v2" a.callback c.arcium) λ _ _.
        step (or_missing (c.private_obligations a.private_obligation)) λ po hp.
          step
            (ok_or
              (ar.verify_bool a.callback.cluster_account a.callback.computation_account c.arcium
                output)
              LendingError.aborted_computation)
            λ is_healthy _.
              let event : LiquidatableEvent = record {
                private_obligation = a.private_obligation;
                owner = po.owner;
              } in
              let c' = put_private a.private_obligation (flag is_healthy po) c in
              let m =
                rewritten {rt = rt} a.private_obligation po (flag is_healthy po) hp
                  (flag-SameRecord po is_healthy) in
              elim (Bool-cases (not is_healthy)) [
                | inl bad ↦ rw bad (returns (s, m))
                | inr good ↦ rw good (returns (s, m))
              ]

  pub execute_private_liquidation-Keeps :
      (a : ExecutePrivateLiquidationAccounts) (repay_amount : ℕ) (clock : Clock) (c : Chain T Q)
      → IsSound c.world
      → Ensures (Keeps rt c) (execute_private_liquidation rt a repay_amount clock c)
  execute_private_liquidation-Keeps a n clock c s =
      follows (execute_private_liquidation-Executed rt a n clock c) λ c' h.
        let valid =
          (private_liquidate_obligation-IsValid a.repay_reserve (loaded-ne s h.rr_is) h.o
              (loaded-position s a.obligation h.o_is) a.withdraw_reserve (loaded-ne s h.wr_is) n
              (h.rr'.liquidity.market_price_sf) (h.rr'.liquidity.cumulative_borrow_rate_sf)
              (clock.slot) h.s).holds
            (h.o', h.actual_repay, h.ctokens_to_seize) h.o'_is in
        let s1 =
          sides-Sound (clock.slot) a.repay_reserve a.withdraw_reserve h.actual_repay s h.rr_is
            h.rr'_is h.wr1_is h.wr'_is h.rr2_is h.rr''_is in
        subst (Keeps rt c) (sym h.made) (
          put_obligation-Sound s1 a.obligation h.o' valid,
          rewritten a.private_obligation h.po (record h.po { is_liquidatable = false }) h.po_is
              (refl, refl, refl, λ e. e),
        )
