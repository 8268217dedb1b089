-- ===== src/Program/Confidential/Moves.antt =====
-- Confidential deposits and loans and their callbacks (private_deposit_collateral.rs,
-- private_borrow.rs).
use mathlib.Core.Path.{subst}
use veil_vault.Base.{sym, follows}
use veil_vault.Private.Traces.Additions.{private_deposit_collateral-Locked, private_borrow-Borrowed}
use veil_vault.Base.{ℕ, LendingError, ok_or, or_missing, Ensures, step, returns}
use veil_vault.Obligation.Deposits.{deposit-Updated}
use veil_vault.Runtime.{Clock, Runtime}
use veil_vault.Arcium.{Arcium, callback_accounts_check}
use veil_vault.Private.{Chain}
use veil_vault.Private.Setup.{CallbackContext}
use veil_vault.Private.DepositCollateral.{
  PrivateDepositCollateralAccounts, EncryptedAmount, note_collateral_reserve,
  private_deposit_collateral, add_collateral_v2_callback,
}
use veil_vault.Private.Borrow.{
  PrivateBorrowAccounts, oracle_is_set, note_borrow_reserve, private_borrow, add_borrow_v2_callback,
}
use veil_vault.Program.Sound.{
  IsSound, loaded-ne, loaded-position, rewrite-Sound, put_obligation-Sound,
}
use veil_vault.Program.Pools.{private_borrow_reserve-config}
use veil_vault.Program.Positions.{private_borrow_obligation-IsValid}
use veil_vault.Program.Records.{
  Keeps, rewritten, store_encrypted-SameRecord, note_collateral_reserve-SameRecord,
  note_borrow_reserve-SameRecord,
}

module _ {T Q Out : Type 0} (rt : Runtime T) (ar : Arcium Q Out) where
  pub add_collateral_v2_callback-Keeps :
      (a : CallbackContext) (output : Out) (c : Chain T Q)
      → IsSound c.world
      → Ensures (Keeps rt c) (add_collateral_v2_callback rt ar a output c)
  unfolding add_collateral_v2_callback
  add_collateral_v2_callback-Keeps a output c s =
      step (callback_accounts_check ar "add_collateral_v2" a.callback c.arcium) λ _ _.
        step (or_missing (c.private_obligations a.private_obligation)) λ po hp.
          step
            (ok_or
              (ar.verify_encrypted a.callback.cluster_account a.callback.computation_account
                c.arcium output)
              LendingError.aborted_computation)
            λ enc _.
              returns
                (s, rewritten a.private_obligation po _ hp (store_encrypted-SameRecord po enc))

  pub add_borrow_v2_callback-Keeps :
      (a : CallbackContext) (output : Out) (c : Chain T Q)
      → IsSound c.world
      → Ensures (Keeps rt c) (add_borrow_v2_callback rt ar a output c)
  unfolding add_borrow_v2_callback
  add_borrow_v2_callback-Keeps a output c s =
      step (callback_accounts_check ar "add_borrow_v2" a.callback c.arcium) λ _ _.
        step (or_missing (c.private_obligations a.private_obligation)) λ po hp.
          step
            (ok_or
              (ar.verify_encrypted a.callback.cluster_account a.callback.computation_account
                c.arcium output)
              LendingError.aborted_computation)
            λ enc _.
              returns
                (s, rewritten a.private_obligation po _ hp (store_encrypted-SameRecord po enc))

  pub private_deposit_collateral-Keeps :
      (a : PrivateDepositCollateralAccounts) (computation_offset collateral_amount : ℕ)
      (e : EncryptedAmount) (c : Chain T Q)
      → IsSound c.world
      → Ensures
          (Keeps rt c)
          (private_deposit_collateral rt ar a computation_offset collateral_amount e c)
  private_deposit_collateral-Keeps a k n e c s =
      follows (private_deposit_collateral-Locked rt ar a k n e c) λ c' h.
        let valid =
          deposit-Updated a.reserve n h.o h.o' (loaded-ne s h.r_is)
            (loaded-position s a.obligation h.o_is) h.o'_is in
        subst (Keeps rt c) (sym h.made) (
          put_obligation-Sound s a.obligation h.o' (valid.0),
          rewritten a.private_obligation h.po (note_collateral_reserve a.reserve h.po) h.po_is
              (note_collateral_reserve-SameRecord h.po a.reserve),
        )

  pub private_borrow-Keeps :
      (a : PrivateBorrowAccounts) (computation_offset amount : ℕ) (e : EncryptedAmount)
      (clock : Clock) (c : Chain T Q)
      → IsSound c.world
      → Ensures (Keeps rt c) (private_borrow rt ar a computation_offset amount e clock c)
  private_borrow-Keeps a k n e clock c s =
      follows (private_borrow-Borrowed rt ar a k n e clock c) λ c' h.
        let s1 =
          rewrite-Sound s a.reserve h.r h.r' h.r_is
            ((private_borrow_reserve-config (clock.slot) n h.r).holds h.r' h.r'_is) in
        let valid =
          (private_borrow_obligation-IsValid a.reserve (loaded-ne s h.r_is) h.o
              (loaded-position s a.obligation h.o_is) (oracle_is_set h.r) n
              (h.r'.liquidity.cumulative_borrow_rate_sf) (h.r'.liquidity.market_price_sf)
              (clock.slot)).holds
            h.o' h.o'_is in
        subst (Keeps rt c) (sym h.made) (
          put_obligation-Sound s1 a.obligation h.o' valid,
          rewritten a.private_obligation h.po (note_borrow_reserve a.reserve h.po) h.po_is
              (note_borrow_reserve-SameRecord h.po a.reserve),
        )
