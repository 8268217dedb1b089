-- ===== src/Private/Borrow/Oracle.antt =====
-- programs/veilvault/src/instructions/private_borrow.rs: a confidential loan from a reserve that has
-- no oracle.
use veil_vault.Base.{
  ℕ, ◌*◌, ◌^◌, ◌<◌, ◌≡◌, ◌≢◌, refl, true, false, ok, none, some, not, position, set, ltb, ◌==◌,
  checked_mul, checked_add, arith, ◌+◌, ◌-◌, ◌≤◌, ◌∙◌,
}
use veil_vault.Constants.{Pubkey, default_key, rate_scale}
use veil_vault.Reserve
use veil_vault.Reserve.{Reserve}
use veil_vault.Reserve.Config.{is_active}
use veil_vault.Reserve.Accrual.{accrue_interest-Grown}
use veil_vault.Reserve.Limits.{borrow-past-limit}
use veil_vault.Obligation
use veil_vault.Obligation.{
  Obligation, InitObligationParams, find_borrow, find_or_add_borrow, liquidity_init,
  borrow_is_active, deposit_value, borrow_value,
}
use veil_vault.Obligation.Slots.{prefix, active_values}
use veil_vault.Obligation.Valid.{owed}
use veil_vault.Obligation.Health.{seen_collateral}
use veil_vault.Instructions.Borrow.{accrue_existing, check_covered, sum_values}
use veil_vault.Private.Borrow.{oracle_is_set, private_borrow_reserve, private_borrow_obligation}

-- A new obligation with one debt, opened in its first slot.
abbrev indebted : InitObligationParams → Obligation → (rk index debt_sf : ℕ) → Obligation
indebted p old rk index debt_sf =
    let o = Obligation.init p old in
    let b = record (liquidity_init rk index) { borrowed_amount_sf = debt_sf } in
    record o { borrows = set o.borrows 0 b; borrows_count = 1 }

module _ (p : InitObligationParams) (old : Obligation) (rk amount index : ℕ) where
  -- No slot is that of the reserve, and the first is empty.
  no_slot : rk ≢ 0 → position (λ c. c.borrow_reserve == rk) ((Obligation.init p old).borrows) ≡ none
  unfolding Obligation.init position
  no_slot ne = ground arith

  first_slot : position (λ c. not (borrow_is_active c)) ((Obligation.init p old).borrows) ≡ some 0
  unfolding Obligation.init position
  first_slot = refl

  unpriced_accrual :
      rk ≢ 0 → accrue_existing rk index (Obligation.init p old) ≡ ok (Obligation.init p old)
  unfolding accrue_existing find_borrow
  unpriced_accrual ne = rw (accrue_existing, no_slot ne) refl

  unpriced_borrow :
      rk ≢ 0
      → 0 < amount
      → amount * rate_scale < 2 ^ 128
      → Obligation.borrow rk amount index (Obligation.init p old)
        ≡ ok (indebted p old rk index (amount * rate_scale))
  unfolding Obligation.init Obligation.borrow find_or_add_borrow
  unpriced_borrow ne pos fits =
      let positive : ltb 0 amount ≡ true = ground arith in
      let product : checked_mul 128 amount rate_scale ≡ some (amount * rate_scale) = ground arith in
      let total : checked_add 128 0 (amount * rate_scale) ≡ some (amount * rate_scale) =
        ground arith in
      rw (positive, find_or_add_borrow, no_slot ne, first_slot, product, total) refl

  unpriced_check : (debt_sf : ℕ) → check_covered amount 0 (indebted p old rk index debt_sf) ≡ ok tt
  unfolding Obligation.init check_covered prefix sum_values
  unpriced_check debt_sf = ground arith

-- The reserve's part goes through to the loan.
unpriced_reserve :
    (r accrued : Reserve) (amount slot : ℕ)
    → is_active r.config ≡ true
    → oracle_is_set r ≡ false
    → Reserve.accrue_interest slot r ≡ ok accrued
    → amount ≤ accrued.liquidity.available_amount
    → accrued.liquidity.borrowed_amount_sf + amount < 2 ^ 128
    → accrued.liquidity.borrowed_amount_sf < accrued.config.borrow_limit
    → (r' : Reserve) × (private_borrow_reserve slot amount r ≡ ok r')
      × (r'.liquidity.available_amount ≡ accrued.liquidity.available_amount - amount)
      × (r'.liquidity.market_price_sf ≡ accrued.liquidity.market_price_sf)
unfolding private_borrow_reserve
unpriced_reserve r accrued amount slot active none_set accrues enough fits below =
    let (r', lends, e, _) = borrow-past-limit amount accrued enough fits below in
    (r', rw (active, none_set, accrues) lends, rw e refl, rw e refl)

-- Where an active reserve, whose key is not zero and whose protocol fee is at most 1000 bps, has no
-- oracle and the price 0, and its debt, with the interest accrued, is below its borrow limit, the
-- parts of a confidential loan on the reserve and on the obligation succeed for any positive amount
-- that is available, where it and the new debt fit a `u128`, on a new obligation, which has no
-- collateral and was never refreshed: the amount leaves the reserve, and becomes the obligation's
-- debt.
pub unpriced_loan :
    (p : InitObligationParams) (old : Obligation) (r accrued : Reserve) (rk : Pubkey)
    (amount slot : ℕ)
    → rk ≢ 0
    → 0 < amount
    → amount * rate_scale < 2 ^ 128
    → is_active r.config ≡ true
    → r.config.pyth_oracle ≡ default_key
    → r.liquidity.market_price_sf ≡ 0
    → r.config.protocol_fee ≤ 1_000
    → Reserve.accrue_interest slot r ≡ ok accrued
    → amount ≤ r.liquidity.available_amount
    → accrued.liquidity.borrowed_amount_sf + amount < 2 ^ 128
    → accrued.liquidity.borrowed_amount_sf < r.config.borrow_limit
    → (r' : Reserve) × (o' : Obligation) × (private_borrow_reserve slot amount r ≡ ok r')
      × (private_borrow_obligation
            (oracle_is_set r)
            rk
            amount
            (r'.liquidity.cumulative_borrow_rate_sf)
            (r'.liquidity.market_price_sf)
            slot
            (Obligation.init p old)
          ≡ ok o')
      × (r'.liquidity.available_amount ≡ r.liquidity.available_amount - amount)
      × (owed o' rk ≡ amount * rate_scale)
      × (seen_collateral o' ≡ 0)
unfolding private_borrow_obligation oracle_is_set Obligation.init active_values
unpriced_loan p old r accrued rk amount slot ne pos fits active oracle price fee accrues enough new
      below =
    let unset : oracle_is_set r ≡ false = ground arith in
    let g = accrue_interest-Grown slot r accrued fee accrues in
    let (r', lends, left, priced) =
      unpriced_reserve r accrued amount slot active unset accrues (omega (arith, g.available)) new
        (rw (g.config) below) in
    let index = r'.liquidity.cumulative_borrow_rate_sf in
    (
      r',
      indebted p old rk index (amount * rate_scale),
      lends,
      rw
          (
            unset,
            priced ∙ g.price ∙ price,
            unpriced_accrual p old rk amount index ne,
            unpriced_borrow p old rk amount index ne pos fits,
            unpriced_check p old rk amount index (amount * rate_scale),
          )
          refl,
      omega (arith, left, g.available),
      ground arith,
      refl,
    )
