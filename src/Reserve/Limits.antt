-- ===== src/Reserve/Limits.antt =====
-- The caps on deposits and on borrowing.
use veil_vault.Base.{
  ℕ, ◌+◌, ◌-◌, ◌^◌, ◌≤◌, ◌<◌, ◌≡◌, ok, arith, LendingError, Error, err, refl, ltb, Bool-cases, inl,
  inr, ◌⊎◌,
}
use veil_vault.Reserve.Liquidity
use veil_vault.Reserve.Liquidity.{total_supply}
use veil_vault.Reserve.Collateral
use veil_vault.Reserve.Collateral.{exchange_rate, liquidity_to_collateral}
use veil_vault.Reserve.{Reserve, deposit_liquidity, borrow}

-- After a successful deposit the supply, where it is in range, is within the deposit limit (a
-- `u64`).
pub deposit-within-limit :
    (a : ℕ) (r r' : Reserve) (c t' : ℕ)
    → r.config.deposit_limit < 2 ^ 64
    → deposit_liquidity a r ≡ ok (r', c)
    → total_supply r'.liquidity ≡ ok t'
    → t' ≤ r'.config.deposit_limit
unfolding deposit_liquidity total_supply Liquidity.deposit Collateral.mint liquidity_to_collateral
    exchange_rate
deposit-within-limit a r r' c t' w h k = ground arith

-- The borrow limit is compared with the debt before the loan alone: while the debt is below the
-- limit, a loan of any available amount succeeds where the new debt fits a `u128`, also one that
-- takes the debt past the limit: the amount leaves the available one and joins the debt, and the
-- rest of the reserve is as it was. Then either the new debt is still below the limit, or the next
-- loan, of any amount, is refused.
pub borrow-past-limit :
    (a : ℕ) (r : Reserve)
    → a ≤ r.liquidity.available_amount
    → r.liquidity.borrowed_amount_sf + a < 2 ^ 128
    → r.liquidity.borrowed_amount_sf < r.config.borrow_limit
    → (r' : Reserve) × (borrow a r ≡ ok r')
      × (r' ≡ record r {
        liquidity = record (r.liquidity) {
          available_amount = r.liquidity.available_amount - a;
          borrowed_amount_sf = r.liquidity.borrowed_amount_sf + a;
        };
      })
      × ((r'.liquidity.borrowed_amount_sf < r'.config.borrow_limit)
          ⊎ ((b : ℕ) → borrow b r' ≡ err (Error.lending LendingError.borrow_limit_exceeded)))
unfolding borrow Liquidity.borrow
borrow-past-limit a r h k below = (
  record r {
    liquidity = record (r.liquidity) {
      available_amount = r.liquidity.available_amount - a;
      borrowed_amount_sf = r.liquidity.borrowed_amount_sf + a;
    };
  },
  ground arith,
  refl,
  elim (Bool-cases (ltb (r.liquidity.borrowed_amount_sf + a) (r.config.borrow_limit))) [
    | inl below_still ↦ inl (ground arith)
    | inr reached ↦ inr (λ b. ground arith)
  ],
)
