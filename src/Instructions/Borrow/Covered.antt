-- ===== src/Instructions/Borrow/Covered.antt =====
-- What a granted loan guarantees.
use veil_vault.Base.{
  ℕ, ◌+◌, ◌*◌, ◌≤◌, ◌≡◌, ◌≢◌, refl, sym, ◌∙◌, inl, inr, not, false, Option, Option-cases, List, [],
  ◌∷◌, LendingError, ok, require, arith, take, >>=-elim, Result-cases,
}
use mathlib.Core.Path.{subst}
use veil_vault.Constants.{Pubkey, rate_scale}
use veil_vault.LastUpdate.{is_slot_stale}
use veil_vault.Obligation
use veil_vault.Obligation.{Obligation, deposit_value, borrow_value, find_borrow}
use veil_vault.Obligation.Slots.{prefix, fold_values, active_values}
use veil_vault.Obligation.Valid.{IsValid, Updated, owed}
use veil_vault.Obligation.Accrual.{accrue_interest-IsValid}
use veil_vault.Obligation.Borrows.{borrow-Updated}
use veil_vault.Obligation.Health.{seen_collateral, seen_debt}
use veil_vault.Instructions.Borrow.{sum_values, accrue_existing, check_covered, borrow_obligation}

-- A sum that does not panic is the saturating one of the health factor.
sum_values_lem {ℓ} :
    {A : Type ℓ} (value : A → Option ℕ) (acc n : ℕ) (xs : List A)
    → sum_values value acc xs ≡ ok n
    → fold_values value acc xs ≡ n
unfolding sum_values fold_values
sum_values_lem value acc n [] h = cc
sum_values_lem value acc n (x ∷ xs) h = elim (Option-cases (value x)) [
  | inl e ↦ ground (arith, sum_values_lem value acc n xs)
  | inr (v, e) ↦ ground (arith, sum_values_lem value (acc + v) n xs)
]

prefix-take {ℓ} : {A : Type ℓ} (k : ℕ) (xs ys : List A) → prefix k xs ≡ ok ys → ys ≡ take k xs
unfolding prefix
prefix-take k xs ys h = ground arith

check_covered-le :
    (amount price : ℕ) (o : Obligation)
    → check_covered amount price o ≡ ok tt
    → seen_debt o + amount * price ≤ seen_collateral o
unfolding check_covered active_values
check_covered-le amount price o h = >>=-elim (prefix o.deposits_count o.deposits) _ h λ ds h1 k1.
    >>=-elim (sum_values deposit_value 0 ds) _ k1 λ c h2 k2.
      >>=-elim (prefix o.borrows_count o.borrows) _ k2 λ bs h3 k3.
        >>=-elim (sum_values borrow_value 0 bs) _ k3 λ d h4 k4.
          let ec : seen_collateral o ≡ c =
            rw (sym (prefix-take o.deposits_count o.deposits ds h1))
              (sum_values_lem deposit_value 0 c ds h2) in
          let ed : seen_debt o ≡ d =
            rw (sym (prefix-take o.borrows_count o.borrows bs h3))
              (sum_values_lem borrow_value 0 d bs h4) in
          let le : d + amount * price ≤ c = ground arith in rw (ec, ed) le

pub accrue_existing-IsValid :
    (rk : Pubkey) (index : ℕ) (o o' : Obligation)
    → IsValid o
    → accrue_existing rk index o ≡ ok o'
    → IsValid o' × (o'.deposits ≡ o.deposits)
unfolding accrue_existing
accrue_existing-IsValid rk index o o' v h = elim (Result-cases (find_borrow rk o)) [
  | inl (e, q) ↦ let same : o ≡ o' = ground arith in rw (sym same) (v, refl)
  | inr (i, q) ↦ accrue_interest-IsValid i index o o' v (ground arith)
]

-- A loan from a reserve, whose key is not zero, is granted on a valid obligation only if it was
-- refreshed in this slot and what is counted of its collateral covers what is counted of its debts,
-- as priced, and the new loan: counted are the slots before the number of active ones of each side,
-- so that a debt behind a cleared slot is not. The obligation stays valid, the debt to the reserve
-- grows by the loan from what it is after interest, and the collateral is as it was.
pub borrow_obligation-covered :
    (rk : Pubkey) (amount index price slot : ℕ) (o o' : Obligation)
    → rk ≢ 0
    → IsValid o
    → borrow_obligation rk amount index price slot o ≡ ok o'
    → (is_slot_stale o.last_update slot ≡ false)
      × IsValid o'
      × (seen_debt o' + amount * price ≤ seen_collateral o')
      × (o'.deposits ≡ o.deposits)
      × ((accrued : Obligation) × (accrue_existing rk index o ≡ ok accrued)
          × Updated (owed accrued) (owed o') rk (owed accrued rk + amount * rate_scale))
unfolding borrow_obligation
borrow_obligation-covered rk amount index price slot o o' ne v h =
    >>=-elim (require (not (is_slot_stale o.last_update slot)) LendingError.obligation_stale) _ h
      λ u1 h1 k1. >>=-elim (accrue_existing rk index o) _ k1 λ accrued h2 k2.
        >>=-elim (Obligation.borrow rk amount index accrued) _ k2 λ b h3 k3.
          >>=-elim (check_covered amount price b) _ k3 λ u4 h4 k4.
            let same : b ≡ o' = cc in
            let (v1, d1) = accrue_existing-IsValid rk index o accrued v h2 in
            let (v2, owes, d2) = borrow-Updated rk amount index accrued b ne v1 h3 in
            subst
              (λ x.
                (is_slot_stale o.last_update slot ≡ false)
                × IsValid x
                × (seen_debt x + amount * price ≤ seen_collateral x)
                × (x.deposits ≡ o.deposits)
                × ((accrued : Obligation) × (accrue_existing rk index o ≡ ok accrued)
                    × Updated (owed accrued) (owed x) rk (owed accrued rk + amount * rate_scale)))
              same
              (ground arith, v2, check_covered-le amount price b h4, d2 ∙ d1, (accrued, h2, owes))
