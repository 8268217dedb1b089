-- ===== src/Instructions/RefreshObligation/Debts.antt =====
-- The round of refreshing a debt.
use mathlib.Core.Path.{ap, subst}
use veil_vault.Base.{
  ℕ, ◌≡◌, ◌≢◌, refl, sym, ◌∙◌, not, true, some, List, Option, arith, LendingError, ok, or_panic,
  get_elem?, set, ◌==◌, Bool-cases, inl, inr, Ensures, step, returns,
}
use veil_vault.Constants.{Pubkey}
use veil_vault.Reserve.{Reserve}
use veil_vault.Obligation.{
  Obligation, ObligationLiquidity, borrow_is_active, accrue_slot, accrue_interest,
}
use veil_vault.Obligation.Accrual.{get_elem?-set}
use veil_vault.Instructions.RefreshObligation.{
  ReserveFields, listed_fields, price_borrow, refresh_borrow,
}
use veil_vault.Instructions.RefreshObligation.Pricing.{
  PricedBorrow, debt_worth, get-set_ne, ok_inj, listed_same,
}

price_borrow-worth :
    (f : ReserveFields) (b p : ObligationLiquidity)
    → price_borrow f.price_sf b ≡ ok p
    → (p.borrow_reserve ≡ b.borrow_reserve)
      × (p.cumulative_borrow_rate_sf ≡ b.cumulative_borrow_rate_sf)
      × (p.market_value_sf ≡ debt_worth f p.borrowed_amount_sf)
unfolding price_borrow
price_borrow-worth f b p h = (ground arith, ground arith, ground arith)

accrue_slot-rate :
    (rate : ℕ) (b b' : ObligationLiquidity)
    → accrue_slot rate b ≡ ok b'
    → borrow_is_active b ≡ true
    → (b'.borrow_reserve ≡ b.borrow_reserve) × (b'.cumulative_borrow_rate_sf ≡ rate)
unfolding accrue_slot
accrue_slot-rate rate b b' h e = (ground arith, ground arith)

record SlotAccrued (i rate : ℕ) (o o' : Obligation) : Type 0 where
  before : ObligationLiquidity
  after : ObligationLiquidity
  before_is : or_panic (get_elem? o.borrows i) ≡ ok before
  after_is : accrue_slot rate before ≡ ok after
  made : o'.borrows ≡ set o.borrows i after

accrue_interest-SlotAccrued :
    (i rate : ℕ) (o : Obligation) → Ensures (SlotAccrued i rate o) (accrue_interest i rate o)
unfolding accrue_interest
accrue_interest-SlotAccrued i rate o = step (or_panic (get_elem? o.borrows i)) λ b g.
    step (accrue_slot rate b)
      λ b' h. returns (record { before = b; after = b'; before_is = g; after_is = h; made = refl })

accrued-elsewhere :
    (i j rate : ℕ) (o o' : Obligation)
    → accrue_interest i rate o ≡ ok o'
    → j ≢ i
    → get_elem? o'.borrows j ≡ get_elem? o.borrows j
accrued-elsewhere i j rate o o' h ne =
    let s = (accrue_interest-SlotAccrued i rate o).holds o' h in
    ap (λ x. get_elem? x j) s.made ∙ get-set_ne o.borrows i j s.after ne

accrued-rate :
    (i rate : ℕ) (o o' : Obligation) (b b' : ObligationLiquidity)
    → or_panic (get_elem? o.borrows i) ≡ ok b
    → accrue_interest i rate o ≡ ok o'
    → or_panic (get_elem? o'.borrows i) ≡ ok b'
    → borrow_is_active b ≡ true
    → (b'.borrow_reserve ≡ b.borrow_reserve) × (b'.cumulative_borrow_rate_sf ≡ rate)
accrued-rate i rate o o' b b' g h g' e =
    let s = (accrue_interest-SlotAccrued i rate o).holds o' h in
    let same : s.before ≡ b = ok_inj (sym s.before_is ∙ g) in
    let found : get_elem? o.borrows i ≡ some s.before = let q = s.before_is in ground arith in
    let now = ap (λ x. get_elem? x i) s.made ∙ get_elem?-set o.borrows i s.before s.after found in
    let is : s.after ≡ b' = ground arith in
    let accrued : accrue_slot rate b ≡ ok b' =
      subst (λ x. accrue_slot rate x ≡ ok b') same (s.after_is ∙ ap ok is) in
    accrue_slot-rate rate b b' accrued e

module _ (reserves : Pubkey → Option Reserve) (remaining : List Pubkey) where
  pub refresh_borrow-done :
      (i : ℕ) (o : Obligation)
      → Ensures (PricedBorrow reserves remaining i) (refresh_borrow reserves remaining i o)
  unfolding refresh_borrow accrue_interest
  refresh_borrow-done i o = step (or_panic (get_elem? o.borrows i)) λ b g.
      elim (Bool-cases (not (borrow_is_active b))) [
        | inl inactive ↦
            rw inactive (returns (record { worth = λ d' f e a l p. absurd (ground arith) }))
        | inr active ↦ rw active (
            step (listed_fields reserves remaining b.borrow_reserve LendingError.borrow_not_found)
              λ f h. elim (Bool-cases (f.price_sf == 0)) [
                | inl unpriced ↦ rw unpriced (
                    returns (record {
                      worth = λ d' f' e a l p.
                          let at : b.borrow_reserve ≡ d'.borrow_reserve = ground arith in
                          let same =
                            listed_same reserves remaining _ _ LendingError.borrow_not_found f f' at
                              h l in
                          let zero_price : f'.price_sf ≡ 0 = ground arith in absurd (p zero_price);
                    }))
                | inr priced ↦ rw priced (
                    step (accrue_interest i f.cumulative_rate_sf o) λ accrued q.
                      step (or_panic (get_elem? accrued.borrows i)) λ b1 g1.
                        step (price_borrow f.price_sf b1) λ p k. returns (record {
                          worth = λ d' f' e a l n.
                              let (key, rate, value) = price_borrow-worth f b1 p k in
                              let (key1, rate1) =
                                accrued-rate i f.cumulative_rate_sf o accrued b b1 g q g1
                                  (ground arith) in
                              let now = get_elem?-set accrued.borrows i b1 p (ground arith) in
                              let is : p ≡ d' = ground arith in
                              let at : b.borrow_reserve ≡ d'.borrow_reserve =
                                sym (key ∙ key1) ∙ ap (λ x. x.borrow_reserve) is in
                              let same =
                                listed_same reserves remaining _ _ LendingError.borrow_not_found f
                                  f' at h l in
                              subst
                                (λ x.
                                  (x.market_value_sf ≡ debt_worth f' x.borrowed_amount_sf)
                                  × (x.cumulative_borrow_rate_sf ≡ f'.cumulative_rate_sf))
                                is
                                (subst
                                  (λ x.
                                    (p.market_value_sf ≡ debt_worth x p.borrowed_amount_sf)
                                    × (p.cumulative_borrow_rate_sf ≡ x.cumulative_rate_sf))
                                  same (value, rate ∙ rate1));
                        }))
              ])
      ]

  pub refresh_borrow-kept :
      (i j : ℕ) (o : Obligation)
      → j ≢ i
      → PricedBorrow reserves remaining j o
      → Ensures (PricedBorrow reserves remaining j) (refresh_borrow reserves remaining i o)
  unfolding refresh_borrow
  refresh_borrow-kept i j o ne w = step (or_panic (get_elem? o.borrows i)) λ b g.
      elim (Bool-cases (not (borrow_is_active b))) [
        | inl inactive ↦ rw inactive (returns w)
        | inr active ↦ rw active (
            step (listed_fields reserves remaining b.borrow_reserve LendingError.borrow_not_found)
              λ f h. elim (Bool-cases (f.price_sf == 0)) [
                | inl unpriced ↦ rw unpriced (returns w)
                | inr priced ↦ rw priced (
                    step (accrue_interest i f.cumulative_rate_sf o) λ accrued q.
                      step (or_panic (get_elem? accrued.borrows i)) λ b1 g1.
                        step (price_borrow f.price_sf b1) λ p k. returns (record {
                          worth = λ d' f' e. w.worth d' f' (
                              sym (accrued-elsewhere i j f.cumulative_rate_sf o accrued q ne)
                              ∙ (sym (get-set_ne accrued.borrows i j p ne) ∙ e));
                        }))
              ])
      ]
