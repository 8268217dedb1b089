-- ===== src/Program/Cleartext/Liquidation.antt =====
-- Liquidations under the invariant of Program/Sound; both reserves may be one account.
use veil_vault.Program.Sides.{sides-Sound}
use mathlib.Core.Path.{subst}
use veil_vault.Base.{sym, follows}
use veil_vault.Instructions.Traces.Liquidation.{liquidate-Seized}
use veil_vault.Base.{ℕ, Ensures}
use veil_vault.Runtime.{Clock, Runtime, World}
use veil_vault.Instructions.Liquidate.{LiquidateAccounts, liquidate}
use veil_vault.Program.Sound.{IsSound, loaded-ne, loaded-position, put_obligation-Sound}
use veil_vault.Program.Positions.{liquidate_obligation-IsValid}

module _ {T : Type 0} (rt : Runtime T) where
  pub liquidate-IsSound :
      (a : LiquidateAccounts) (repay_amount : ℕ) (clock : Clock) (w : World T)
      → IsSound w
      → Ensures IsSound (liquidate rt a repay_amount clock w)
  liquidate-IsSound a n clock w s = follows (liquidate-Seized rt a n clock w) λ w' h.
      let valid =
        (liquidate_obligation-IsValid a.repay_reserve (loaded-ne s h.rr_is) h.o
            (loaded-position s a.obligation h.o_is) a.withdraw_reserve (loaded-ne s h.wr_is) n
            (h.rr'.liquidity.market_price_sf) (h.rr'.liquidity.cumulative_borrow_rate_sf)
            (clock.slot) h.s).holds
          (h.o', h.actual_repay, h.ctokens_to_seize) h.o'_is in
      let s1 =
        sides-Sound (clock.slot) a.repay_reserve a.withdraw_reserve h.actual_repay s h.rr_is
          h.rr'_is h.wr1_is h.wr'_is h.rr2_is h.rr''_is in
      subst IsSound (sym h.made) (put_obligation-Sound s1 a.obligation h.o' valid)
