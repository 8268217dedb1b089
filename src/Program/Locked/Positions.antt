-- ===== src/Program/Locked/Positions.antt =====
-- What the instructions do to the cTokens that an obligation has locked.
use veil_vault.Base.{
  ℕ, zero, suc, ◌≡◌, ◌≢◌, ◌∙◌, refl, not, Bool, some, List, [], ◌∷◌, Option, none, arith,
  LendingError, require, or_panic, get_elem?, set, Ensures, step, returns, follows, Bool-cases, inl,
  inr, ◌==◌, ok,
}
use veil_vault.Constants.{Pubkey}
use veil_vault.LastUpdate.{is_slot_stale}
use veil_vault.Reserve.{Reserve}
use veil_vault.Obligation
use veil_vault.Obligation.{
  Obligation, ObligationCollateral, find_borrow, deposit_is_active, borrow_is_active, is_healthy,
}
use veil_vault.Obligation.Valid.{IsValid, deposited, deposit_key}
use veil_vault.Obligation.Keys.{find}
use veil_vault.Runtime.{Clock}
use veil_vault.Instructions.Borrow.{accrue_existing}
use veil_vault.Instructions.Repay.{repay_obligation}
use veil_vault.Instructions.Liquidate.{WithdrawSide, liquidate_obligation}
use veil_vault.Instructions.RefreshObligation.{
  ReserveFields, listed_fields, for_range, price_deposit, refresh_borrow, refresh_deposit, refresh,
}
use veil_vault.Private.Borrow.{private_borrow_obligation}
use veil_vault.Private.Liquidate.{private_liquidate_obligation}
use veil_vault.Instructions.Liquidate.Effects.{Taken, liquidate_position-Taken}
use veil_vault.Instructions.RefreshObligation.Loops.{for_range-keeps}

-- The same is locked at every reserve.
pub record SameDeposits (o o' : Obligation) : Type 0 where
  pub same : (k : Pubkey) → deposited o' k ≡ deposited o k

pub equal-SameDeposits : (o o' : Obligation) → o'.deposits ≡ o.deposits → SameDeposits o o'
equal-SameDeposits o o' e = record { same = λ k. rw e refl }

pub repay_obligation-deposits :
    (k : Pubkey) (n index : ℕ) (o : Obligation)
    → Ensures (λ o'. o'.deposits ≡ o.deposits) (repay_obligation k n index o)
unfolding repay_obligation Obligation.accrue_interest Obligation.repay
repay_obligation-deposits k n index o = record { holds = λ o' h. ground arith }

pub private_borrow_obligation-deposits :
    (oracle : Bool) (k : Pubkey) (n index price slot : ℕ) (o : Obligation)
    → Ensures
        (λ o'. o'.deposits ≡ o.deposits)
        (private_borrow_obligation oracle k n index price slot o)
unfolding private_borrow_obligation accrue_existing Obligation.accrue_interest Obligation.borrow
private_borrow_obligation-deposits oracle k n index price slot o = record {
  holds = λ o' h. ground arith;
}

-- A slot's price is not part of what is locked.
module _ (r : Pubkey) where
  abbrev amount_of : Option ObligationCollateral → ℕ
  amount_of none = 0
  amount_of (some d) = d.deposited_amount

  priced_amount :
      (xs : List ObligationCollateral) (i : ℕ) (d d' : ObligationCollateral)
      → get_elem? xs i ≡ some d
      → d'.deposit_reserve ≡ d.deposit_reserve
      → d'.deposited_amount ≡ d.deposited_amount
      → amount_of (find deposit_key r (set xs i d')) ≡ amount_of (find deposit_key r xs)
  priced_amount [] i d d' g k e = refl
  priced_amount (x ∷ xs) zero d d' g k e = ground arith
  priced_amount (x ∷ xs) (suc i) d d' g k e = ground (arith, priced_amount xs i d d' g k e)

price_deposit-amount :
    (f : ReserveFields) (d d' : ObligationCollateral)
    → price_deposit f d ≡ ok d'
    → (d'.deposit_reserve ≡ d.deposit_reserve) × (d'.deposited_amount ≡ d.deposited_amount)
unfolding price_deposit
price_deposit-amount f d d' h = (ground arith, ground arith)

module _ (reserves : Pubkey → Option Reserve) (remaining : List Pubkey) where
  refresh_borrow-deposits :
      (i : ℕ) (o : Obligation)
      → Ensures (λ o'. o'.deposits ≡ o.deposits) (refresh_borrow reserves remaining i o)
  unfolding refresh_borrow Obligation.accrue_interest
  refresh_borrow-deposits i o = record { holds = λ o' h. ground arith }

  refresh_deposit-SameDeposits :
      (i : ℕ) (o : Obligation) → Ensures (SameDeposits o) (refresh_deposit reserves remaining i o)
  unfolding refresh_deposit
  refresh_deposit-SameDeposits i o = step (or_panic (get_elem? o.deposits i)) λ d g.
      elim (Bool-cases (not (deposit_is_active d))) [
        | inl inactive ↦ rw inactive (returns (record { same = λ k. refl }))
        | inr active ↦ rw active (
            step (listed_fields reserves remaining d.deposit_reserve LendingError.deposit_not_found)
              λ f _. elim (Bool-cases (f.price_sf == 0)) [
                | inl unpriced ↦ rw unpriced (returns (record { same = λ k. refl }))
                | inr priced ↦ rw priced (
                    step (price_deposit f d) λ p h.
                      let (key, amount) = price_deposit-amount f d p h in
                      returns (record {
                        same = λ k. priced_amount k o.deposits i d p (ground arith) key amount;
                      }))
              ])
      ]

  refresh_borrow-SameDeposits :
      (first : Obligation) (i : ℕ) (o : Obligation)
      → SameDeposits first o
      → Ensures (SameDeposits first) (refresh_borrow reserves remaining i o)
  refresh_borrow-SameDeposits first i o so =
      follows (refresh_borrow-deposits i o)
        λ o' e. record { same = λ k. (equal-SameDeposits o o' e).same k ∙ so.same k }

  pub refresh-SameDeposits :
      (clock : Clock) (o : Obligation)
      → Ensures (SameDeposits o) (refresh reserves remaining clock o)
  unfolding refresh
  refresh-SameDeposits clock o =
      step (for_range (refresh_borrow reserves remaining) (o.borrows_count) 0 o) λ o1 h.
        step (for_range (refresh_deposit reserves remaining) (o1.deposits_count) 0 o1) λ o2 k.
          let first =
            (for_range-keeps (SameDeposits o) (refresh_borrow reserves remaining)
                (refresh_borrow-SameDeposits o) (o.borrows_count) 0 o
                (record { same = λ k. refl })).holds
              o1 h in
          let second =
            (for_range-keeps (SameDeposits o) (refresh_deposit reserves remaining)
                (λ i x so.
                  follows (refresh_deposit-SameDeposits i x)
                    λ x' e. record { same = λ k. e.same k ∙ so.same k })
                (o1.deposits_count) 0 o1 first).holds
              o2 k in
          returns (record { same = second.same })

module _ (rk wk : Pubkey) (ne : rk ≢ 0) (ne' : wk ≢ 0) (n price index slot : ℕ) (s : WithdrawSide)
    (o : Obligation) (v : IsValid o) where
  pub liquidate_obligation-Taken :
      Ensures (λ x. Taken wk (x.2) o (x.0)) (liquidate_obligation rk wk n price index slot s o)
  unfolding liquidate_obligation
  liquidate_obligation-Taken =
      step (require (not (is_slot_stale o.last_update slot)) LendingError.obligation_stale) λ _ _.
        step (is_healthy o) λ healthy _.
          step (require (not healthy) LendingError.obligation_healthy) λ _ _. record {
            holds = λ x h.
                liquidate_position-Taken rk wk n price index s o (x.0) (x.1) (x.2) ne ne' v h;
          }

  pub private_liquidate_obligation-Taken :
      Ensures
        (λ x. Taken wk (x.2) o (x.0))
        (private_liquidate_obligation rk wk n price index slot s o)
  unfolding private_liquidate_obligation
  private_liquidate_obligation-Taken =
      step (require (not (is_slot_stale o.last_update slot)) LendingError.obligation_stale) λ _ _.
        record {
          holds =
              λ x h. liquidate_position-Taken rk wk n price index s o (x.0) (x.1) (x.2) ne ne' v h;
        }
