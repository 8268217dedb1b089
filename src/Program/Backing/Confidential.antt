-- ===== src/Program/Backing/Confidential.antt =====
-- The confidential instructions, against the vaults.
use mathlib.Core.Path.{subst}
use veil_vault.Base.{ℕ, ◌≡◌, sym, ok, arith, Ensures, follows}
use veil_vault.Market.{LendingMarket}
use veil_vault.Runtime.{Clock, Runtime, vault_of}
use veil_vault.Tokens.{IsWallet, AddressLaws, TokenLaws}
use veil_vault.Tokens.Effects.{Ledger}
use veil_vault.Arcium.{Arcium, CompDefAccounts}
use veil_vault.Private.{Chain, PrivateObligation}
use veil_vault.Private.Setup.{
  InitPrivateObligationAccounts, CallbackContext, init_position_comp_def, init_private_obligation,
  init_position_v2_callback,
}
use veil_vault.Private.DepositCollateral.{
  PrivateDepositCollateralAccounts, EncryptedAmount, add_collateral_comp_def,
  private_deposit_collateral, add_collateral_v2_callback,
}
use veil_vault.Private.Borrow.{
  PrivateBorrowAccounts, add_borrow_comp_def, private_borrow_check, private_borrow,
  add_borrow_v2_callback,
}
use veil_vault.Private.Check.{
  PrivateCheckLiquidatableAccounts, HealthInputs, check_health_comp_def, private_check_liquidatable,
  check_health_v2_callback,
}
use veil_vault.Private.Traces.Additions.{private_deposit_collateral-Locked, private_borrow-Borrowed}
use veil_vault.Program.Backing.Counts.{private_borrow_reserve-Books}
use veil_vault.Program.Backing.Worlds.{IsBacked}
use veil_vault.Program.Backing.Calls.{transferred, paid_out-AllBacked, paid_by_wallet-AllBacked}

module _ {T Q Out : Type 0} (rt : Runtime T) (ar : Arcium Q Out) where
  pub private_borrow_check-account :
      (a : PrivateBorrowAccounts) (k : ℕ) (m : LendingMarket) (po : PrivateObligation) (t : T)
      (q : Q)
      → private_borrow_check rt ar a k m po t q ≡ ok tt
      → a.liquidity_vault ≡ vault_of rt a.reserve
  unfolding private_borrow_check
  private_borrow_check-account a k m po t q h = ground arith

  module _ (c : Chain T Q) where
    abbrev SameWorld : Chain T Q → Type 0
    SameWorld c' = c'.world ≡ c.world

    pub init_position_comp_def-SameWorld :
        (a : CompDefAccounts) → Ensures SameWorld (init_position_comp_def rt ar a c)
    unfolding init_position_comp_def
    init_position_comp_def-SameWorld a = record { holds = λ c' h. ground arith }

    pub add_collateral_comp_def-SameWorld :
        (a : CompDefAccounts) → Ensures SameWorld (add_collateral_comp_def rt ar a c)
    unfolding add_collateral_comp_def
    add_collateral_comp_def-SameWorld a = record { holds = λ c' h. ground arith }

    pub add_borrow_comp_def-SameWorld :
        (a : CompDefAccounts) → Ensures SameWorld (add_borrow_comp_def rt ar a c)
    unfolding add_borrow_comp_def
    add_borrow_comp_def-SameWorld a = record { holds = λ c' h. ground arith }

    pub check_health_comp_def-SameWorld :
        (a : CompDefAccounts) → Ensures SameWorld (check_health_comp_def rt ar a c)
    unfolding check_health_comp_def
    check_health_comp_def-SameWorld a = record { holds = λ c' h. ground arith }

    pub init_private_obligation-SameWorld :
        (a : InitPrivateObligationAccounts) (k : ℕ)
        → Ensures SameWorld (init_private_obligation rt ar a k c)
    unfolding init_private_obligation
    init_private_obligation-SameWorld a k = record { holds = λ c' h. ground arith }

    pub private_check_liquidatable-SameWorld :
        (a : PrivateCheckLiquidatableAccounts) (k : ℕ) (i : HealthInputs)
        → Ensures SameWorld (private_check_liquidatable rt ar a k i c)
    unfolding private_check_liquidatable
    private_check_liquidatable-SameWorld a k i = record { holds = λ c' h. ground arith }

    module _ (a : CallbackContext) (out : Out) where
      pub init_position_v2_callback-SameWorld :
          Ensures SameWorld (init_position_v2_callback rt ar a out c)
      unfolding init_position_v2_callback
      init_position_v2_callback-SameWorld = record { holds = λ c' h. ground arith }

      pub add_collateral_v2_callback-SameWorld :
          Ensures SameWorld (add_collateral_v2_callback rt ar a out c)
      unfolding add_collateral_v2_callback
      add_collateral_v2_callback-SameWorld = record { holds = λ c' h. ground arith }

      pub add_borrow_v2_callback-SameWorld :
          Ensures SameWorld (add_borrow_v2_callback rt ar a out c)
      unfolding add_borrow_v2_callback
      add_borrow_v2_callback-SameWorld = record { holds = λ c' h. ground arith }

      pub check_health_v2_callback-SameWorld :
          Ensures SameWorld (check_health_v2_callback rt ar a out c)
      unfolding check_health_v2_callback
      check_health_v2_callback-SameWorld = record { holds = λ c' h. ground arith }

  module _ (l : Ledger T) (laws : TokenLaws rt l) (n k : ℕ) (e : EncryptedAmount) (c : Chain T Q)
      (all : IsBacked rt l c.world) where
    pub private_deposit_collateral-IsBacked :
        (a : PrivateDepositCollateralAccounts)
        → IsWallet rt a.depositor
        → Ensures (λ c'. IsBacked rt l c'.world) (private_deposit_collateral rt ar a k n e c)
    private_deposit_collateral-IsBacked a wallet =
        follows (private_deposit_collateral-Locked rt ar a k n e c) λ c' h.
          subst (λ x. IsBacked rt l x.world) (sym h.made)
            (paid_by_wallet-AllBacked all (transferred rt l laws _ _ h.t_is) wallet)

    pub private_borrow-IsBacked :
        AddressLaws rt
        → (a : PrivateBorrowAccounts) (clock : Clock)
        → Ensures (λ c'. IsBacked rt l c'.world) (private_borrow rt ar a k n e clock c)
    private_borrow-IsBacked addresses a clock =
        follows (private_borrow-Borrowed rt ar a k n e clock c) λ c' h.
          let vault = private_borrow_check-account a k h.m h.po c.world.tokens c.arcium h.checked in
          subst (λ x. IsBacked rt l x.world) (sym h.made)
            (paid_out-AllBacked all (transferred rt l laws _ _ h.t_is) addresses a.reserve h.r_is
              vault ((private_borrow_reserve-Books (clock.slot) n h.r).holds h.r' h.r'_is))
