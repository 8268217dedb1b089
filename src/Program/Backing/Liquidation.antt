-- ===== src/Program/Backing/Liquidation.antt =====
-- Liquidations, public and confidential, against the vaults. The reserves may be one account.
use mathlib.Core.Path.{subst}
use veil_vault.Base.{ℕ, ◌≡◌, sym, ok, Option, arith, or_missing, Ensures, follows}
use veil_vault.Constants.{Pubkey}
use veil_vault.Market.{LendingMarket}
use veil_vault.Reserve
use veil_vault.Reserve.{Reserve}
use veil_vault.Obligation.{Obligation}
use veil_vault.Runtime.{Clock, Runtime, World, vault_of, stored}
use veil_vault.Tokens.{IsWallet, AddressLaws, TokenLaws, locker_of}
use veil_vault.Tokens.Effects.{Ledger, Moved}
use veil_vault.Instructions.Liquidate.{LiquidateAccounts, liquidate, liquidate_check, ready_reserve}
use veil_vault.Instructions.Traces.Liquidation.{liquidate-Seized}
use veil_vault.Private.{Chain, PrivateObligation}
use veil_vault.Private.Liquidate.{
  ExecutePrivateLiquidationAccounts, execute_private_liquidation, execute_private_liquidation_check,
}
use veil_vault.Private.Traces.Liquidation.{execute_private_liquidation-Executed}
use veil_vault.Program.Backing.Counts.{ready_reserve-SameBooks, repay-Books}
use veil_vault.Program.Backing.Worlds.{IsBacked, AllBacked, rewritten-AllBacked}
use veil_vault.Program.Backing.Calls.{transferred, paid_in-AllBacked, unlocked-AllBacked}

module _ {T : Type 0} (rt : Runtime T) (m : LendingMarket) (o : Obligation) (rr wr : Reserve)
    (t : T) where
  pub liquidate_check-accounts :
      (a : LiquidateAccounts)
      → liquidate_check rt a m o rr wr t ≡ ok tt
      → (a.repay_liquidity_vault ≡ vault_of rt a.repay_reserve)
        × (a.collateral_supply_vault ≡ locker_of rt a.withdraw_reserve)
  unfolding liquidate_check
  liquidate_check-accounts a h = ground arith

  pub execute_check-accounts :
      (a : ExecutePrivateLiquidationAccounts) (po : PrivateObligation)
      → execute_private_liquidation_check rt a m po o rr wr t ≡ ok tt
      → (a.repay_liquidity_vault ≡ vault_of rt a.repay_reserve)
        × (a.collateral_supply_vault ≡ locker_of rt a.withdraw_reserve)
  unfolding execute_private_liquidation_check
  execute_check-accounts a po h = ground arith

-- Both reserves brought up to date, the repayment in the first vault, the seized cTokens out.
module _ {T : Type 0} {rt : Runtime T} {l : Ledger T} (addresses : AddressLaws rt) (slot : ℕ)
    (rk wk : Pubkey) (n : ℕ) {t t1 t2 : T} {reserves : Pubkey → Option Reserve}
    {rr rr' wr1 wr' rr2 rr'' : Reserve} where
  liquidated-AllBacked :
      {from to liquidator locker account market : Pubkey} {seized : ℕ}
      → AllBacked rt l t reserves
      → or_missing (reserves rk) ≡ ok rr
      → ready_reserve slot rr ≡ ok rr'
      → or_missing (stored reserves rk rr' wk) ≡ ok wr1
      → ready_reserve slot wr1 ≡ ok wr'
      → or_missing (stored (stored reserves rk rr') wk wr' rk) ≡ ok rr2
      → Reserve.repay n rr2 ≡ ok rr''
      → Moved l from to liquidator n t t1
      → Moved l locker account market seized t1 t2
      → IsWallet rt liquidator
      → to ≡ vault_of rt rk
      → locker ≡ locker_of rt wk
      → AllBacked rt l t2 (stored (stored (stored reserves rk rr') wk wr') rk rr'')
  liquidated-AllBacked all h k hw kw h2 p paid seized wallet vault locked =
      let s1 = rewritten-AllBacked all rk h ((ready_reserve-SameBooks slot rr).holds rr' k) in
      let s2 = rewritten-AllBacked s1 wk hw ((ready_reserve-SameBooks slot wr1).holds wr' kw) in
      let s3 = paid_in-AllBacked s2 paid rk wallet h2 vault ((repay-Books n rr2).holds rr'' p) in
      unlocked-AllBacked s3 seized addresses wk locked

module _ {T : Type 0} (rt : Runtime T) (l : Ledger T) (laws : TokenLaws rt l)
    (addresses : AddressLaws rt) (n : ℕ) (clock : Clock) where
  pub liquidate-IsBacked :
      (a : LiquidateAccounts) (w : World T)
      → IsBacked rt l w
      → IsWallet rt a.liquidator
      → Ensures (IsBacked rt l) (liquidate rt a n clock w)
  liquidate-IsBacked a w all wallet = follows (liquidate-Seized rt a n clock w) λ w' h.
      let (vault, locker) = liquidate_check-accounts rt h.m h.o h.rr h.wr w.tokens a h.checked in
      subst (IsBacked rt l) (sym h.made) (
        liquidated-AllBacked addresses (clock.slot) a.repay_reserve a.withdraw_reserve
          h.actual_repay all h.rr_is h.rr'_is h.wr1_is h.wr'_is h.rr2_is h.rr''_is
          (transferred rt l laws _ _ h.t_is) (transferred rt l laws _ _ h.t'_is) wallet vault
          locker)

  pub execute_private_liquidation-IsBacked :
      {Q : Type 0} (a : ExecutePrivateLiquidationAccounts) (c : Chain T Q)
      → IsBacked rt l c.world
      → IsWallet rt a.liquidator
      → Ensures (λ c'. IsBacked rt l c'.world) (execute_private_liquidation rt a n clock c)
  execute_private_liquidation-IsBacked a c all wallet =
      follows (execute_private_liquidation-Executed rt a n clock c) λ c' h.
        let (vault, locker) =
          execute_check-accounts rt h.m h.o h.rr h.wr c.world.tokens a h.po h.checked in
        subst (λ x. IsBacked rt l x.world) (sym h.made)
          (liquidated-AllBacked addresses (clock.slot) a.repay_reserve a.withdraw_reserve
            h.actual_repay all h.rr_is h.rr'_is h.wr1_is h.wr'_is h.rr2_is h.rr''_is
            (transferred rt l laws _ _ h.t_is) (transferred rt l laws _ _ h.t'_is) wallet vault
            locker)
