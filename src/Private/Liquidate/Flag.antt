-- ===== src/Private/Liquidate/Flag.antt =====
-- programs/veilvault/src/instructions/private_liquidate.rs: what the flag of a confidential
-- position admits, beside the public liquidation.
use mathlib.Core.Path.{subst}
use veil_vault.Base.{sym, follows}
use veil_vault.Private.Traces.Liquidation.{execute_private_liquidation-Executed}
use veil_vault.Base.{ℕ, ◌≡◌, ◌≢◌, refl, true, false, some, ok, arith, Ensures}
use veil_vault.Constants.{Pubkey}
use veil_vault.Market.{LendingMarket}
use veil_vault.Reserve.{Reserve}
use veil_vault.Obligation.{Obligation}
use veil_vault.Runtime.{Clock, Runtime, stored}
use veil_vault.Private.{PrivateObligation, Chain}
use veil_vault.Private.Liquidate.{
  ExecutePrivateLiquidationAccounts, execute_private_liquidation_check, execute_private_liquidation,
}

module _ {T Q : Type 0} (rt : Runtime T) where
  -- The record after: as before, with the flag cleared.
  abbrev pub Spent : Pubkey → Chain T Q → Chain T Q → Type 0
  Spent k c c' =
      (po : PrivateObligation) × (c.private_obligations k ≡ some po)
      × (po.is_liquidatable ≡ true)
      × (c'.private_obligations
          ≡ stored c.private_obligations k (record po { is_liquidatable = false }))

  execute-Spent :
      (a : ExecutePrivateLiquidationAccounts) (repay_amount : ℕ) (clock : Clock) (c : Chain T Q)
      → Ensures
          (Spent a.private_obligation c)
          (execute_private_liquidation rt a repay_amount clock c)
  execute-Spent a n clock c = follows (execute_private_liquidation-Executed rt a n clock c) λ c' h.
      let flagged = h.flagged in
      let found = h.po_is in
      subst (Spent a.private_obligation c) (sym h.made) (h.po, ground arith, ground arith, refl)

  -- One flag admits one liquidation. A confidential liquidation succeeds only for a record that is
  -- flagged, it clears the flag and changes nothing else of the record, and no second one
  -- for that record succeeds right after it, whatever its other accounts and its amount.
  pub execute-once :
      (a a' : ExecutePrivateLiquidationAccounts) (amount amount' : ℕ) (clock clock' : Clock)
      (c c' c2 : Chain T Q)
      → execute_private_liquidation rt a amount clock c ≡ ok c'
      → a'.private_obligation ≡ a.private_obligation
      → Spent a.private_obligation c c'
        × (execute_private_liquidation rt a' amount' clock' c' ≢ ok c2)
  execute-once a a' amount amount' clock clock' c c' c2 h e =
      let spent = (execute-Spent a amount clock c).holds c' h in
      (
        spent,
        λ again.
            let (po', found, flagged, _) = (execute-Spent a' amount' clock' c').holds c2 again in
            let (po, _, _, now) = spent in ground arith,
      )

module _ {T : Type 0} (rt : Runtime T) where
  -- The account checks do not tie the obligation to the owner of the flagged record: another
  -- obligation of the same market, whoever owns it, passes and fails them alike.
  pub execute_check-any_obligation :
      (a : ExecutePrivateLiquidationAccounts) (k : Pubkey) (m : LendingMarket)
      (po : PrivateObligation) (o other : Obligation) (rr wr : Reserve) (t : T)
      → other.lending_market ≡ o.lending_market
      → execute_private_liquidation_check rt (record a { obligation = k }) m po other rr wr t
        ≡ execute_private_liquidation_check rt a m po o rr wr t
  unfolding execute_private_liquidation_check
  execute_check-any_obligation a k m po o other rr wr t e = rw e refl
