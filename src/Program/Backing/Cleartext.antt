-- ===== src/Program/Backing/Cleartext.antt =====
-- The cleartext instructions that move tokens, against the vaults.
use mathlib.Core.Path.{subst}
use veil_vault.Base.{ℕ, ◌≡◌, sym, ok, arith, Ensures, follows}
use veil_vault.Market.{LendingMarket}
use veil_vault.Runtime.{Clock, Runtime, World, vault_of}
use veil_vault.Tokens.{IsWallet, AddressLaws, TokenLaws, mint_of, locker_of}
use veil_vault.Tokens.Effects.{Ledger}
use veil_vault.Instructions.Deposit.{DepositAccounts, deposit, deposit_check}
use veil_vault.Instructions.Withdraw.{WithdrawAccounts, withdraw, withdraw_check}
use veil_vault.Instructions.DepositCollateral.{DepositCollateralAccounts, deposit_collateral}
use veil_vault.Instructions.WithdrawCollateral.{
  WithdrawCollateralAccounts, withdraw_collateral, withdraw_collateral_check,
}
use veil_vault.Instructions.Borrow.{BorrowAccounts, borrow, borrow_check}
use veil_vault.Instructions.Repay.{RepayAccounts, repay, repay_check}
use veil_vault.Instructions.Traces.Supply.{deposit-Deposited, withdraw-Withdrawn}
use veil_vault.Instructions.Traces.Collateral.{
  deposit_collateral-Locked, withdraw_collateral-Released,
}
use veil_vault.Instructions.Traces.Loans.{borrow-Borrowed, repay-Repaid}
use veil_vault.Program.Custody.{wallet-ne}
use veil_vault.Program.Backing.Effects.{
  passed_by, paid_in, paid_out, issued, issued_elsewhere, retired, retired_elsewhere,
}
use veil_vault.Program.Backing.Counts.{
  available, minted, deposit_reserve-Books, withdraw_reserve-Books, borrow_reserve-Books,
  repay_reserve-Books,
}
use veil_vault.Program.Backing.Worlds.{IsBacked, loaded-Backed, written-AllBacked, recount}
use veil_vault.Program.Backing.Calls.{
  transferred, issues, burnt, paid_in-AllBacked, paid_out-AllBacked, paid_by_wallet-AllBacked,
  unlocked-AllBacked,
}

-- The account checks tie the vaults and the cToken mint to the reserve.
module _ {T : Type 0} (rt : Runtime T) (m : LendingMarket) (t : T) where
  deposit_check-accounts :
      (a : DepositAccounts)
      → deposit_check rt a m t ≡ ok tt
      → (a.liquidity_vault ≡ vault_of rt a.reserve) × (a.collateral_mint ≡ mint_of rt a.reserve)
  unfolding deposit_check
  deposit_check-accounts a h = ground arith

  pub withdraw_check-accounts :
      (a : WithdrawAccounts)
      → withdraw_check rt a m t ≡ ok tt
      → (a.liquidity_vault ≡ vault_of rt a.reserve) × (a.collateral_mint ≡ mint_of rt a.reserve)
  unfolding withdraw_check
  withdraw_check-accounts a h = ground arith

  pub withdraw_collateral_check-account :
      (a : WithdrawCollateralAccounts)
      → withdraw_collateral_check rt a m t ≡ ok tt
      → a.collateral_supply_vault ≡ locker_of rt a.reserve
  unfolding withdraw_collateral_check
  withdraw_collateral_check-account a h = ground arith

  pub borrow_check-account :
      (a : BorrowAccounts)
      → borrow_check rt a m t ≡ ok tt
      → a.liquidity_vault ≡ vault_of rt a.reserve
  unfolding borrow_check
  borrow_check-account a h = ground arith

  repay_check-account :
      (a : RepayAccounts) → repay_check rt a m t ≡ ok tt → a.liquidity_vault ≡ vault_of rt a.reserve
  unfolding repay_check
  repay_check-account a h = ground arith

module _ {T : Type 0} (rt : Runtime T) (l : Ledger T) (laws : TokenLaws rt l)
    (addresses : AddressLaws rt) (n : ℕ) (clock : Clock) (w : World T) (all : IsBacked rt l w) where
  pub deposit-IsBacked :
      (a : DepositAccounts)
      → IsWallet rt a.depositor
      → Ensures (IsBacked rt l) (deposit rt a n clock w)
  deposit-IsBacked a wallet = follows (deposit-Deposited rt a n clock w) λ w' h.
      let (vault, mint) = deposit_check-accounts rt h.m w.tokens a h.checked in
      let books =
        (deposit_reserve-Books (clock.slot) n h.r).holds (h.r', h.collateral_amount) h.r'_is in
      let tokens = books.tokens in
      let ctokens = books.ctokens in
      let moved = transferred rt l laws _ _ h.t_is in
      let new = issues rt l laws _ h.t'_is in
      let old = loaded-Backed all a.reserve h.r_is in
      let paid =
        paid_in moved old (wallet-ne old.guard a.depositor _ wallet moved.authorised) vault in
      subst (IsBacked rt l) (sym h.made) (
        written-AllBacked all a.reserve h.r'
          (recount (issued new paid mint) (ground arith) (ground arith))
          λ j b ne other.
            let differ = addresses.mints_differ j a.reserve in
            issued_elsewhere new
              (passed_by moved other (wallet-ne other.guard a.depositor _ wallet moved.authorised))
              λ same. ground arith)

  pub withdraw-IsBacked :
      (a : WithdrawAccounts)
      → IsWallet rt a.depositor
      → Ensures (IsBacked rt l) (withdraw rt a n clock w)
  withdraw-IsBacked a wallet = follows (withdraw-Withdrawn rt a n clock w) λ w' h.
      let (vault, mint) = withdraw_check-accounts rt h.m w.tokens a h.checked in
      let books =
        (withdraw_reserve-Books (clock.slot) n h.r).holds (h.r', h.liquidity_amount) h.r'_is in
      let tokens = books.tokens in
      let ctokens = books.ctokens in
      let gone = burnt rt l laws h.t_is in
      let moved = transferred rt l laws _ _ h.t'_is in
      let old = loaded-Backed all a.reserve h.r_is in
      let less =
        retired gone old (wallet-ne old.guard a.depositor _ wallet gone.authorised)
          {s' = minted h.r'} mint (ground arith) in
      subst (IsBacked rt l) (sym h.made) (
        written-AllBacked all a.reserve h.r'
          (paid_out moved less {a' = available h.r'} vault (ground arith))
          λ j b ne other.
            let mints = addresses.mints_differ j a.reserve in
            let vaults = addresses.vaults_differ j a.reserve in
            passed_by moved
              (retired_elsewhere gone other
                (wallet-ne other.guard a.depositor _ wallet gone.authorised) λ same. ground arith)
              λ same. ground arith)

  pub deposit_collateral-IsBacked :
      (a : DepositCollateralAccounts)
      → IsWallet rt a.depositor
      → Ensures (IsBacked rt l) (deposit_collateral rt a n clock w)
  deposit_collateral-IsBacked a wallet = follows (deposit_collateral-Locked rt a n clock w) λ w' h.
      subst (IsBacked rt l) (sym h.made)
        (paid_by_wallet-AllBacked all (transferred rt l laws _ _ h.t_is) wallet)

  pub withdraw_collateral-IsBacked :
      (a : WithdrawCollateralAccounts)
      → Ensures (IsBacked rt l) (withdraw_collateral rt a n clock w)
  withdraw_collateral-IsBacked a = follows (withdraw_collateral-Released rt a n clock w) λ w' h.
      subst (IsBacked rt l) (sym h.made) (
        unlocked-AllBacked all (transferred rt l laws _ _ h.t_is) addresses a.reserve
          (withdraw_collateral_check-account rt h.m w.tokens a h.checked))

  pub borrow-IsBacked : (a : BorrowAccounts) → Ensures (IsBacked rt l) (borrow rt a n clock w)
  borrow-IsBacked a = follows (borrow-Borrowed rt a n clock w) λ w' h.
      subst (IsBacked rt l) (sym h.made) (
        paid_out-AllBacked all (transferred rt l laws _ _ h.t_is) addresses a.reserve h.r_is
          (borrow_check-account rt h.m w.tokens a h.checked)
          ((borrow_reserve-Books (clock.slot) n h.r).holds h.r' h.r'_is))

  pub repay-IsBacked :
      (a : RepayAccounts) → IsWallet rt a.borrower → Ensures (IsBacked rt l) (repay rt a n clock w)
  repay-IsBacked a wallet = follows (repay-Repaid rt a n clock w) λ w' h.
      subst (IsBacked rt l) (sym h.made) (
        paid_in-AllBacked all (transferred rt l laws _ _ h.t_is) a.reserve wallet h.r_is
          (repay_check-account rt h.m w.tokens a h.checked)
          ((repay_reserve-Books (clock.slot) n h.r).holds (h.r', h.index) h.r'_is))
