-- ===== src/Program/Locked/Confidential.antt =====
-- The confidential instructions that move tokens, and what positions have locked.
use mathlib.Core.Path.{subst}
use veil_vault.Base.{ℕ, ◌≡◌, sym, ok, arith, Ensures, follows}
use veil_vault.Market.{LendingMarket}
use veil_vault.Obligation.Deposits.{deposit-Updated}
use veil_vault.Runtime.{Clock, Runtime}
use veil_vault.Tokens.{IsWallet, AddressLaws, TokenLaws, locker_of}
use veil_vault.Tokens.Effects.{Ledger}
use veil_vault.Arcium.{Arcium}
use veil_vault.Private.{Chain, PrivateObligation}
use veil_vault.Private.DepositCollateral.{
  PrivateDepositCollateralAccounts, EncryptedAmount, private_deposit_collateral,
  private_deposit_collateral_check,
}
use veil_vault.Private.Borrow.{PrivateBorrowAccounts, private_borrow, oracle_is_set}
use veil_vault.Private.Traces.Additions.{private_deposit_collateral-Locked, private_borrow-Borrowed}
use veil_vault.Program.Sound.{IsSound, loaded-ne, loaded-position}
use veil_vault.Program.Backing.Calls.{transferred}
use veil_vault.Program.Backing.Confidential.{private_borrow_check-account}
use veil_vault.Program.Locked.Defs.{
  IsSecured, held-AllSecured, stored-SameReserves, stored-SameLocks,
}
use veil_vault.Program.Locked.Moves.{vault-Holds, locked-AllSecured}
use veil_vault.Program.Locked.Positions.{equal-SameDeposits, private_borrow_obligation-deposits}

module _ {T Q Out : Type 0} (rt : Runtime T) (ar : Arcium Q Out) where
  private_deposit_collateral_check-account :
      (a : PrivateDepositCollateralAccounts) (k : ℕ) (m : LendingMarket) (po : PrivateObligation)
      (t : T) (q : Q)
      → private_deposit_collateral_check rt ar a k m po t q ≡ ok tt
      → a.collateral_supply_vault ≡ locker_of rt a.reserve
  unfolding private_deposit_collateral_check
  private_deposit_collateral_check-account a k m po t q h = ground arith

  module _ (l : Ledger T) (laws : TokenLaws rt l) (addresses : AddressLaws rt) (n k : ℕ)
      (e : EncryptedAmount) (c : Chain T Q) (s : IsSound c.world)
      (all : IsSecured rt l c.world) where
    pub private_deposit_collateral-IsSecured :
        (a : PrivateDepositCollateralAccounts)
        → IsWallet rt a.depositor
        → Ensures (λ c'. IsSecured rt l c'.world) (private_deposit_collateral rt ar a k n e c)
    private_deposit_collateral-IsSecured a wallet =
        follows (private_deposit_collateral-Locked rt ar a k n e c) λ c' h.
          let moved =
            deposit-Updated a.reserve n h.o h.o' (loaded-ne s h.r_is)
              (loaded-position s a.obligation h.o_is) h.o'_is in
          let account =
            private_deposit_collateral_check-account a k h.m h.po c.world.tokens c.arcium
              h.checked in
          subst (λ x. IsSecured rt l x.world) (sym h.made)
            (locked-AllSecured all s.no_default addresses a.reserve a.obligation h.o' h.r_is h.o_is
              (transferred rt l laws _ _ h.t_is) wallet account (moved.1))

    pub private_borrow-IsSecured :
        (a : PrivateBorrowAccounts) (clock : Clock)
        → Ensures (λ c'. IsSecured rt l c'.world) (private_borrow rt ar a k n e clock c)
    private_borrow-IsSecured a clock =
        follows (private_borrow-Borrowed rt ar a k n e clock c) λ c' h.
          let vault =
            private_borrow_check-account rt ar a k h.m h.po c.world.tokens c.arcium h.checked in
          let same = equal-SameDeposits h.o h.o' (
            (private_borrow_obligation-deposits (oracle_is_set h.r) a.reserve n
                (h.r'.liquidity.cumulative_borrow_rate_sf) (h.r'.liquidity.market_price_sf)
                (clock.slot) h.o).holds
              h.o' h.o'_is) in
          subst (λ x. IsSecured rt l x.world) (sym h.made)
            (held-AllSecured all s.no_default _ _
              (vault-Holds (transferred rt l laws _ _ h.t_is) addresses a.reserve vault)
              (stored-SameReserves c.world.reserves a.reserve h.r' h.r_is)
              (stored-SameLocks c.world.obligations a.obligation h.o' h.o_is λ k ne. same.same k))
