-- ===== src/Program/Positions.antt =====
-- The invariant of an obligation under what the instructions do to the obligation.
use veil_vault.Base.{
  ℕ, ◌≡◌, ◌≢◌, not, ◌||◌, Bool, LendingError, ok, require, or_panic, get_elem?, arith, Ensures,
  step, returns, Bool-cases, inl, inr, ◌==◌, List, Option,
}
use veil_vault.Constants.{Pubkey}
use veil_vault.LastUpdate.{is_slot_stale}
use veil_vault.Reserve.{Reserve}
use veil_vault.Obligation
use veil_vault.Obligation.{
  Obligation, ObligationCollateral, ObligationLiquidity, find_borrow, deposit_is_active,
  borrow_is_active, is_healthy,
}
use veil_vault.Obligation.Valid.{IsValid}
use veil_vault.Obligation.Accrual.{accrue_interest-IsValid}
use veil_vault.Obligation.Borrows
use veil_vault.Obligation.Deposits
use veil_vault.Runtime.{Clock}
use veil_vault.Instructions.Borrow.{accrue_existing, check_covered}
use veil_vault.Instructions.Borrow.Covered.{accrue_existing-IsValid}
use veil_vault.Instructions.Repay.{repay_obligation}
use veil_vault.Instructions.Liquidate.{WithdrawSide, liquidate_obligation}
use veil_vault.Instructions.Liquidate.Effects.{liquidate_position-IsValid}
use veil_vault.Instructions.RefreshObligation.{
  ReserveFields, listed_fields, for_range, price_borrow, price_deposit, refresh_borrow,
  refresh_deposit, refresh,
}
use veil_vault.Instructions.RefreshObligation.Loops.{for_range-keeps}
use veil_vault.Private.Borrow.{private_borrow_obligation}
use veil_vault.Private.Liquidate.{private_liquidate_obligation}

module _ (rk : Pubkey) (ne : rk ≢ 0) (o : Obligation) (v : IsValid o) where
  pub repay_obligation-IsValid : (n index : ℕ) → Ensures IsValid (repay_obligation rk n index o)
  unfolding repay_obligation
  repay_obligation-IsValid n index = step (find_borrow rk o) λ i _.
      step (Obligation.accrue_interest i index o) λ accrued h. record {
        holds = λ o' k.
            (Borrows.repay-Updated rk n accrued o' ne
              ((accrue_interest-IsValid i index o accrued v h).0) k).0;
      }

  pub private_borrow_obligation-IsValid :
      (oracle : Bool) (n index price slot : ℕ)
      → Ensures IsValid (private_borrow_obligation oracle rk n index price slot o)
  unfolding private_borrow_obligation
  private_borrow_obligation-IsValid oracle n index price slot =
      step
        (require (not oracle || not (is_slot_stale o.last_update slot))
          LendingError.obligation_stale)
        λ _ _. step (accrue_existing rk index o) λ accrued h.
          step (Obligation.borrow rk n index accrued) λ o' k. step (check_covered n price o') λ _ _.
            returns (
              (Borrows.borrow-Updated rk n index accrued o' ne
                ((accrue_existing-IsValid rk index o accrued v h).0) k).0)

  module _ (wk : Pubkey) (ne' : wk ≢ 0) (n price index slot : ℕ) (s : WithdrawSide) where
    pub liquidate_obligation-IsValid :
        Ensures (λ x. IsValid (x.0)) (liquidate_obligation rk wk n price index slot s o)
    unfolding liquidate_obligation
    liquidate_obligation-IsValid =
        step (require (not (is_slot_stale o.last_update slot)) LendingError.obligation_stale) λ _ _.
          step (is_healthy o) λ healthy _.
            step (require (not healthy) LendingError.obligation_healthy) λ _ _. record {
              holds = λ x h.
                  liquidate_position-IsValid rk wk n price index s o (x.0) (x.1) (x.2) ne ne' v h;
            }

    pub private_liquidate_obligation-IsValid :
        Ensures (λ x. IsValid (x.0)) (private_liquidate_obligation rk wk n price index slot s o)
    unfolding private_liquidate_obligation
    private_liquidate_obligation-IsValid =
        step (require (not (is_slot_stale o.last_update slot)) LendingError.obligation_stale) λ _ _.
          record {
            holds = λ x h.
                liquidate_position-IsValid rk wk n price index s o (x.0) (x.1) (x.2) ne ne' v h;
          }

price_borrow-key :
    (p : ℕ) (b b' : ObligationLiquidity)
    → price_borrow p b ≡ ok b'
    → b'.borrow_reserve ≡ b.borrow_reserve
unfolding price_borrow
price_borrow-key p b b' h = ground arith

price_deposit-key :
    (f : ReserveFields) (d d' : ObligationCollateral)
    → price_deposit f d ≡ ok d'
    → d'.deposit_reserve ≡ d.deposit_reserve
unfolding price_deposit
price_deposit-key f d d' h = ground arith

module _ (reserves : Pubkey → Option Reserve) (remaining : List Pubkey) where
  refresh_borrow-IsValid :
      (i : ℕ) (o : Obligation) → IsValid o → Ensures IsValid (refresh_borrow reserves remaining i o)
  unfolding refresh_borrow
  refresh_borrow-IsValid i o v = step (or_panic (get_elem? o.borrows i)) λ b _.
      elim (Bool-cases (not (borrow_is_active b))) [
        | inl inactive ↦ rw inactive (returns v)
        | inr active ↦ rw active (
            step (listed_fields reserves remaining b.borrow_reserve LendingError.borrow_not_found)
              λ f _. elim (Bool-cases (f.price_sf == 0)) [
                | inl unpriced ↦ rw unpriced (returns v)
                | inr priced ↦ rw priced (
                    step (Obligation.accrue_interest i f.cumulative_rate_sf o) λ accrued h.
                      step (or_panic (get_elem? accrued.borrows i)) λ b' g.
                        step (price_borrow f.price_sf b') λ p k. returns (
                          Borrows.put_same-IsValid accrued i b' p (ground arith)
                            (price_borrow-key f.price_sf b' p k)
                            ((accrue_interest-IsValid i f.cumulative_rate_sf o accrued v h).0)))
              ])
      ]

  refresh_deposit-IsValid :
      (i : ℕ) (o : Obligation)
      → IsValid o
      → Ensures IsValid (refresh_deposit reserves remaining i o)
  unfolding refresh_deposit
  refresh_deposit-IsValid i o v = step (or_panic (get_elem? o.deposits i)) λ d g.
      elim (Bool-cases (not (deposit_is_active d))) [
        | inl inactive ↦ rw inactive (returns v)
        | inr active ↦ rw active (
            step (listed_fields reserves remaining d.deposit_reserve LendingError.deposit_not_found)
              λ f _. elim (Bool-cases (f.price_sf == 0)) [
                | inl unpriced ↦ rw unpriced (returns v)
                | inr priced ↦ rw priced (
                    step (price_deposit f d) λ p k. returns (
                      Deposits.put_same-IsValid o i d p (ground arith) (price_deposit-key f d p k)
                        v))
              ])
      ]

  pub refresh-IsValid :
      (clock : Clock) (o : Obligation)
      → IsValid o
      → Ensures IsValid (refresh reserves remaining clock o)
  unfolding refresh
  refresh-IsValid clock o v =
      step (for_range (refresh_borrow reserves remaining) (o.borrows_count) 0 o) λ o1 h.
        step (for_range (refresh_deposit reserves remaining) (o1.deposits_count) 0 o1) λ o2 k.
          let v1 =
            (for_range-keeps IsValid (refresh_borrow reserves remaining) refresh_borrow-IsValid
                (o.borrows_count) 0 o v).holds
              o1 h in
          let v2 =
            (for_range-keeps IsValid (refresh_deposit reserves remaining) refresh_deposit-IsValid
                (o1.deposits_count) 0 o1 v1).holds
              o2 k in
          returns (record {
            unique_deposits = v2.unique_deposits;
            unique_borrows = v2.unique_borrows;
            deposits_counted = v2.deposits_counted;
            borrows_counted = v2.borrows_counted;
            deposits_length = v2.deposits_length;
            borrows_length = v2.borrows_length;
          })
