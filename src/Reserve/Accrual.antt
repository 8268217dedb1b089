-- ===== src/Reserve/Accrual.antt =====
-- Interest at the level of the pool.
use veil_vault.Base.{
  ℕ, ◌-◌, ◌≤◌, ◌≡◌, refl, inl, inr, ok, arith, Bool-cases, ◌==◌, ltb, Result-cases,
}
use veil_vault.Reserve.Liquidity.{ReserveLiquidity, total_supply, accured_interest}
use veil_vault.Reserve.Liquidity.Interest.{accured_interest-Accrued, accured_interest-grows}
use veil_vault.Reserve.{Reserve, current_borrow_rate, accrue_interest}

-- Accruing twice in one slot is accruing once: after an accrual at a slot, another one at the
-- same slot, or at an earlier one, changes nothing.
pub accrue_interest_idem :
    (slot earlier : ℕ) (r r' : Reserve)
    → earlier ≤ slot
    → accrue_interest slot r ≡ ok r'
    → accrue_interest earlier r' ≡ ok r'
unfolding accrue_interest
accrue_interest_idem slot earlier r r' h k = ground arith

-- Nothing of a pool has shrunk, what is available, the price, the configuration and the cTokens
-- are as before, and the slot is up to the current one.
pub record Grown (slot : ℕ) (r r' : Reserve) : Type 0 where
  pub debt : r.liquidity.borrowed_amount_sf ≤ r'.liquidity.borrowed_amount_sf
  pub index : r.liquidity.cumulative_borrow_rate_sf ≤ r'.liquidity.cumulative_borrow_rate_sf
  pub fees : r.liquidity.accumulated_protocol_fees ≤ r'.liquidity.accumulated_protocol_fees
  pub supply :
      (t t' : ℕ) → total_supply r.liquidity ≡ ok t → total_supply r'.liquidity ≡ ok t' → t ≤ t'
  pub available : r'.liquidity.available_amount ≡ r.liquidity.available_amount
  pub price : r'.liquidity.market_price_sf ≡ r.liquidity.market_price_sf
  pub config : r'.config ≡ r.config
  pub collateral : r'.collateral ≡ r.collateral
  pub slots : r.last_update_slot ≤ r'.last_update_slot
  pub current : slot ≤ r'.last_update_slot

same_supply :
    (l l' : ReserveLiquidity)
    → l' ≡ l
    → (t t' : ℕ) → total_supply l ≡ ok t
    → total_supply l' ≡ ok t'
    → t ≤ t'
same_supply l l' e t t' p q = ground arith

abbrev at_slot : ℕ → Reserve → ReserveLiquidity → Reserve
at_slot slot r l = record r { liquidity = l; last_update_slot = slot }

same_Grown :
    (slot : ℕ) (r : Reserve)
    → r.last_update_slot ≤ slot
    → Grown slot r (at_slot slot r (r.liquidity))
same_Grown slot r h = record {
  debt = omega arith;
  index = omega arith;
  fees = omega arith;
  supply = same_supply r.liquidity r.liquidity refl;
  available = refl;
  price = refl;
  config = refl;
  collateral = refl;
  slots = h;
  current = omega arith;
}

accrued_Grown :
    (slot b : ℕ) (r : Reserve) (l : ReserveLiquidity)
    → r.config.protocol_fee ≤ 1_000
    → r.last_update_slot ≤ slot
    → accured_interest b (slot - r.last_update_slot) r.config.protocol_fee r.liquidity ≡ ok l
    → Grown slot r (at_slot slot r l)
accrued_Grown slot b r l f h p =
    let elapsed = slot - r.last_update_slot in
    let g = accured_interest-grows b elapsed r.config.protocol_fee r.liquidity l f p in
    let a = accured_interest-Accrued b elapsed r.config.protocol_fee r.liquidity l p in
    record {
      debt = g.0;
      index = g.1;
      fees = g.2;
      supply = g.5;
      available = g.4;
      price = a.price;
      config = refl;
      collateral = refl;
      slots = h;
      current = omega arith;
    }

-- An accrual with a fee of at most 1000 bps never lowers the debt, the index, the fees or the
-- supply of a pool; it leaves what is available, the price, the configuration and the cTokens
-- alone, and brings the slot up to the current one.
pub accrue_interest-Grown :
    (slot : ℕ) (r r' : Reserve)
    → r.config.protocol_fee ≤ 1_000
    → accrue_interest slot r ≡ ok r'
    → Grown slot r r'
unfolding accrue_interest
accrue_interest-Grown slot r r' f h = elim (Bool-cases (slot - r.last_update_slot == 0)) [
  | inl same ↦
      let e : r' ≡ r = ground arith in
      rw e (record {
        debt = omega arith;
        index = omega arith;
        fees = omega arith;
        supply = same_supply r.liquidity r.liquidity refl;
        available = refl;
        price = refl;
        config = refl;
        collateral = refl;
        slots = omega arith;
        current = ground arith;
      })
  | inr elapsed ↦ elim (Result-cases (current_borrow_rate r)) [
    | inl (e, q) ↦ absurd (ground arith)
    | inr (b, q) ↦ elim (Bool-cases (ltb 0 b)) [
      | inl some_rate ↦
          elim (Result-cases
            (accured_interest b (slot - r.last_update_slot) r.config.protocol_fee r.liquidity)) [
              | inl (e, p) ↦ absurd (ground arith)
              | inr (l, p) ↦
                  let e : r' ≡ at_slot slot r l = ground arith in
                  rw e (accrued_Grown slot b r l f (ground arith) p)
            ]
      | inr no_rate ↦
          let e : r' ≡ at_slot slot r (r.liquidity) = ground arith in
          rw e (same_Grown slot r (ground arith))
    ]
  ]
]
