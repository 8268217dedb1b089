-- ===== src/Program/Locked/Liquidation.antt =====
-- Liquidations, public and confidential, and what positions have locked.
use mathlib.Core.Path.{subst}
use veil_vault.Base.{
  ℕ, ◌≡◌, sym, Option, ok, none, arith, or_missing, ◌==◌, Bool-cases, inl, inr, Ensures, follows,
}
use veil_vault.Constants.{Pubkey}
use veil_vault.Reserve.{Reserve}
use veil_vault.Obligation.{Obligation}
use veil_vault.Runtime.{Clock, Runtime, World, stored}
use veil_vault.Tokens.{IsWallet, AddressLaws, TokenLaws, locker_of}
use veil_vault.Tokens.Effects.{Ledger, Moved}
use veil_vault.Instructions.Liquidate.{LiquidateAccounts, liquidate}
use veil_vault.Instructions.Liquidate.Effects.{Taken}
use veil_vault.Instructions.Traces.Liquidation.{liquidate-Seized}
use veil_vault.Private.{Chain}
use veil_vault.Private.Liquidate.{ExecutePrivateLiquidationAccounts, execute_private_liquidation}
use veil_vault.Private.Traces.Liquidation.{execute_private_liquidation-Executed}
use veil_vault.Program.Sound.{IsSound, loaded-ne, loaded-position}
use veil_vault.Program.Sides.{sides-Sound}
use veil_vault.Program.Backing.Calls.{transferred}
use veil_vault.Program.Backing.Liquidation.{liquidate_check-accounts, execute_check-accounts}
use veil_vault.Program.Locked.Defs.{
  AllSecured, IsSecured, held-AllSecured, stored-SameReserves, SameReserves-trans, same-SameLocks,
}
use veil_vault.Program.Locked.Moves.{wallet-Holds, released-AllSecured}
use veil_vault.Program.Locked.Positions.{
  liquidate_obligation-Taken, private_liquidate_obligation-Taken,
}

-- The second reserve is still there after the repayment is written to the first.
still_there :
    (f : Pubkey → Option Reserve) (rk wk : Pubkey) (wr' rr'' : Reserve)
    → (x : Reserve) × (or_missing (stored (stored f wk wr') rk rr'' wk) ≡ ok x)
still_there f rk wk wr' rr'' = elim (Bool-cases (wk == rk)) [
  | inl e ↦ (rr'', ground arith)
  | inr e ↦ (wr', ground arith)
]

module _ {T : Type 0} {rt : Runtime T} {l : Ledger T} (addresses : AddressLaws rt)
    (rk wk at : Pubkey) {t t1 t2 : T} {reserves : Pubkey → Option Reserve}
    {obligations : Pubkey → Option Obligation} {rr wr1 rr2 : Reserve} (rr' wr' rr'' : Reserve)
    {o : Obligation} (o' : Obligation) where
  seized-AllSecured :
      {from to liquidator locker account market : Pubkey} {n seized : ℕ}
      → AllSecured rt l t reserves obligations
      → reserves 0 ≡ none
      → stored (stored (stored reserves rk rr') wk wr') rk rr'' 0 ≡ none
      → or_missing (reserves rk) ≡ ok rr
      → or_missing (stored reserves rk rr' wk) ≡ ok wr1
      → or_missing (stored (stored reserves rk rr') wk wr' rk) ≡ ok rr2
      → or_missing (obligations at) ≡ ok o
      → Moved l from to liquidator n t t1
      → Moved l locker account market seized t1 t2
      → IsWallet rt liquidator
      → locker ≡ locker_of rt wk
      → Taken wk seized o o'
      → AllSecured rt l t2
          (stored (stored (stored reserves rk rr') wk wr') rk rr'')
          (stored obligations at o')
  seized-AllSecured all nd nd' h hw h2 ho paid seized wallet e taken =
      let first = stored reserves rk rr' in
      let same = SameReserves-trans (stored-SameReserves reserves rk rr' h) (
        SameReserves-trans (stored-SameReserves first wk wr' hw)
          (stored-SameReserves (stored first wk wr') rk rr'' h2)) in
      let mid =
        held-AllSecured all nd _ obligations (wallet-Holds paid wallet) same
          (same-SameLocks obligations) in
      let (x, hx) = still_there first rk wk wr' rr'' in
      released-AllSecured mid nd' addresses wk at o' hx ho seized e taken.there taken.left

module _ {T : Type 0} (rt : Runtime T) (l : Ledger T) (laws : TokenLaws rt l)
    (addresses : AddressLaws rt) (n : ℕ) (clock : Clock) where
  pub liquidate-IsSecured :
      (a : LiquidateAccounts) (w : World T)
      → IsSound w
      → IsSecured rt l w
      → IsWallet rt a.liquidator
      → Ensures (IsSecured rt l) (liquidate rt a n clock w)
  liquidate-IsSecured a w s all wallet = follows (liquidate-Seized rt a n clock w) λ w' h.
      let (_, locker) = liquidate_check-accounts rt h.m h.o h.rr h.wr w.tokens a h.checked in
      let taken =
        (liquidate_obligation-Taken a.repay_reserve a.withdraw_reserve (loaded-ne s h.rr_is)
            (loaded-ne s h.wr_is) n (h.rr'.liquidity.market_price_sf)
            (h.rr'.liquidity.cumulative_borrow_rate_sf) (clock.slot) h.s h.o
            (loaded-position s a.obligation h.o_is)).holds
          (h.o', h.actual_repay, h.ctokens_to_seize) h.o'_is in
      let s1 =
        sides-Sound (clock.slot) a.repay_reserve a.withdraw_reserve h.actual_repay s h.rr_is
          h.rr'_is h.wr1_is h.wr'_is h.rr2_is h.rr''_is in
      subst (IsSecured rt l) (sym h.made) (
        seized-AllSecured addresses a.repay_reserve a.withdraw_reserve a.obligation h.rr' h.wr'
          h.rr'' h.o' all s.no_default s1.no_default h.rr_is h.wr1_is h.rr2_is h.o_is
          (transferred rt l laws _ _ h.t_is) (transferred rt l laws _ _ h.t'_is) wallet locker
          taken)

  pub execute_private_liquidation-IsSecured :
      {Q : Type 0} (a : ExecutePrivateLiquidationAccounts) (c : Chain T Q)
      → IsSound c.world
      → IsSecured rt l c.world
      → IsWallet rt a.liquidator
      → Ensures (λ c'. IsSecured rt l c'.world) (execute_private_liquidation rt a n clock c)
  execute_private_liquidation-IsSecured a c s all wallet =
      follows (execute_private_liquidation-Executed rt a n clock c) λ c' h.
        let (_, locker) =
          execute_check-accounts rt h.m h.o h.rr h.wr c.world.tokens a h.po h.checked in
        let taken =
          (private_liquidate_obligation-Taken a.repay_reserve a.withdraw_reserve
              (loaded-ne s h.rr_is) (loaded-ne s h.wr_is) n (h.rr'.liquidity.market_price_sf)
              (h.rr'.liquidity.cumulative_borrow_rate_sf) (clock.slot) h.s h.o
              (loaded-position s a.obligation h.o_is)).holds
            (h.o', h.actual_repay, h.ctokens_to_seize) h.o'_is in
        let s1 =
          sides-Sound (clock.slot) a.repay_reserve a.withdraw_reserve h.actual_repay s h.rr_is
            h.rr'_is h.wr1_is h.wr'_is h.rr2_is h.rr''_is in
        subst (λ x. IsSecured rt l x.world) (sym h.made)
          (seized-AllSecured addresses a.repay_reserve a.withdraw_reserve a.obligation h.rr' h.wr'
            h.rr'' h.o' all s.no_default s1.no_default h.rr_is h.wr1_is h.rr2_is h.o_is
            (transferred rt l laws _ _ h.t_is) (transferred rt l laws _ _ h.t'_is) wallet locker
            taken)
