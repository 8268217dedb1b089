-- ===== src/Instructions/RefreshObligation/Pricing.antt =====
-- The value of a slot at the price of its reserve, and the round of refreshing a deposit.
use mathlib.Core.Path.{ap, subst}
use veil_vault.Base.{
  ℕ, zero, suc, ◌*◌, ◌/◌, ◌≡◌, ◌≢◌, refl, sym, ◌∙◌, not, true, some, List, [], ◌∷◌, Option, arith,
  LendingError, Result, ok, or_panic, get_elem?, set, ◌==◌, if◌then◌else◌, Bool-cases, inl, inr,
  Ensures, step, returns,
}
use veil_vault.Constants.{Pubkey, rate_scale}
use veil_vault.Reserve.{Reserve}
use veil_vault.Obligation.{
  Obligation, ObligationCollateral, ObligationLiquidity, deposit_is_active, borrow_is_active,
}
use veil_vault.Obligation.Accrual.{get_elem?-set}
use veil_vault.Instructions.RefreshObligation.{
  ReserveFields, listed_fields, price_deposit, refresh_deposit,
}

pub get-set_ne :
    {A : Type 0} (xs : List A) (i j : ℕ) (v : A) → j ≢ i → get_elem? (set xs i v) j ≡ get_elem? xs j
get-set_ne [] i j v ne = refl
get-set_ne (x ∷ xs) zero zero v ne = absurd (ne refl)
get-set_ne (x ∷ xs) zero (suc j) v ne = refl
get-set_ne (x ∷ xs) (suc i) zero v ne = refl
get-set_ne (x ∷ xs) (suc i) (suc j) v ne = get-set_ne xs i j v λ e. ne (omega arith)

-- The underlying tokens of locked cTokens, at their price and the liquidation threshold.
abbrev pub collateral_worth : ReserveFields → ℕ → ℕ
collateral_worth f amount =
    (if f.ctoken_supply == 0 then 0 else amount * f.total_liquidity / f.ctoken_supply)
    * f.price_sf
    * f.liq_threshold_pct
    / 100

-- Whole token units of a debt at their price.
abbrev pub debt_worth : ReserveFields → ℕ → ℕ
debt_worth f borrowed = borrowed / rate_scale * f.price_sf

pub ok_inj : {A : Type 0} {a b : A} → Path (Result A) (ok a) (ok b) → a ≡ b
ok_inj h = cc

module _ (reserves : Pubkey → Option Reserve) (remaining : List Pubkey) where
  -- Where a slot is active and its reserve is among the accounts and has a price: the value is the
  -- one at that price.
  pub record PricedDeposit (i : ℕ) (o : Obligation) : Type 0 where
    pub worth :
        (d : ObligationCollateral) (f : ReserveFields)
        → get_elem? o.deposits i ≡ some d
        → deposit_is_active d ≡ true
        → listed_fields reserves remaining d.deposit_reserve LendingError.deposit_not_found ≡ ok f
        → f.price_sf ≢ 0
        → d.market_value_sf ≡ collateral_worth f d.deposited_amount

  pub record PricedBorrow (i : ℕ) (o : Obligation) : Type 0 where
    pub worth :
        (b : ObligationLiquidity) (f : ReserveFields)
        → get_elem? o.borrows i ≡ some b
        → borrow_is_active b ≡ true
        → listed_fields reserves remaining b.borrow_reserve LendingError.borrow_not_found ≡ ok f
        → f.price_sf ≢ 0
        → (b.market_value_sf ≡ debt_worth f b.borrowed_amount_sf)
          × (b.cumulative_borrow_rate_sf ≡ f.cumulative_rate_sf)

  price_deposit-worth :
      (f : ReserveFields) (d p : ObligationCollateral)
      → price_deposit f d ≡ ok p
      → (p.deposit_reserve ≡ d.deposit_reserve)
        × (p.market_value_sf ≡ collateral_worth f p.deposited_amount)
  unfolding price_deposit
  price_deposit-worth f d p h = (ground arith, ground arith)

  -- The fields of one reserve are read once and for all.
  pub listed_same :
      (k k' : Pubkey) (e : LendingError) (f f' : ReserveFields)
      → k ≡ k'
      → listed_fields reserves remaining k e ≡ ok f
      → listed_fields reserves remaining k' e ≡ ok f'
      → f ≡ f'
  listed_same k k' e f f' same h h' =
      let both : listed_fields reserves remaining k e ≡ listed_fields reserves remaining k' e =
        rw same refl in
      ok_inj (sym h ∙ both ∙ h')

  pub refresh_deposit-done :
      (i : ℕ) (o : Obligation) → Ensures (PricedDeposit i) (refresh_deposit reserves remaining i o)
  unfolding refresh_deposit
  refresh_deposit-done i o = step (or_panic (get_elem? o.deposits i)) λ d g.
      elim (Bool-cases (not (deposit_is_active d))) [
        | inl inactive ↦
            rw inactive (returns (record { worth = λ d' f e a l p. absurd (ground arith) }))
        | inr active ↦ rw active (
            step (listed_fields reserves remaining d.deposit_reserve LendingError.deposit_not_found)
              λ f h. elim (Bool-cases (f.price_sf == 0)) [
                | inl unpriced ↦ rw unpriced (
                    returns (record {
                      worth = λ d' f' e a l p.
                          let at : d.deposit_reserve ≡ d'.deposit_reserve = ground arith in
                          let same = listed_same _ _ LendingError.deposit_not_found f f' at h l in
                          let zero_price : f'.price_sf ≡ 0 = ground arith in absurd (p zero_price);
                    }))
                | inr priced ↦ rw priced (
                    step (price_deposit f d) λ p k. returns (record {
                      worth = λ d' f' e a l n.
                          let (key, value) = price_deposit-worth f d p k in
                          let now = get_elem?-set o.deposits i d p (ground arith) in
                          let is : p ≡ d' = ground arith in
                          let at : d.deposit_reserve ≡ d'.deposit_reserve =
                            sym key ∙ ap (λ x. x.deposit_reserve) is in
                          let same = listed_same _ _ LendingError.deposit_not_found f f' at h l in
                          subst (λ x. x.market_value_sf ≡ collateral_worth f' x.deposited_amount) is
                            (subst (λ x. p.market_value_sf ≡ collateral_worth x p.deposited_amount)
                              same value);
                    }))
              ])
      ]

  pub refresh_deposit-kept :
      (i j : ℕ) (o : Obligation)
      → j ≢ i
      → PricedDeposit j o
      → Ensures (PricedDeposit j) (refresh_deposit reserves remaining i o)
  unfolding refresh_deposit
  refresh_deposit-kept i j o ne w = step (or_panic (get_elem? o.deposits i)) λ d g.
      elim (Bool-cases (not (deposit_is_active d))) [
        | inl inactive ↦ rw inactive (returns w)
        | inr active ↦ rw active (
            step (listed_fields reserves remaining d.deposit_reserve LendingError.deposit_not_found)
              λ f h. elim (Bool-cases (f.price_sf == 0)) [
                | inl unpriced ↦ rw unpriced (returns w)
                | inr priced ↦ rw priced (
                    step (price_deposit f d) λ p k. returns (record {
                      worth = λ d' f' e. w.worth d' f' (sym (get-set_ne o.deposits i j p ne) ∙ e);
                    }))
              ])
      ]
