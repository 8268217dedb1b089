-- ===== src/Reserve/Liquidity/Interest.antt =====
-- Interest: what one accrual does to the debt, the fees and the index.
use veil_vault.Base.{ℕ, ◌+◌, ◌-◌, ◌*◌, ◌/◌, ◌≤◌, ◌<◌, ◌≡◌, ok, arith}
use veil_vault.Constants.{rate_scale, bps_scaler, slots_per_year}
use veil_vault.Reserve.Liquidity.{
  ReserveLiquidity, total_supply, accrued_rate, scaled_by_rate, accured_interest,
}

-- Where it succeeds, the rate is the exact one, `bps * slots / (slots per year * 10000)` scaled
-- by `rate_scale`, rounded down.
accrued_rate_lem :
    (b s r : ℕ) → accrued_rate b s ≡ ok r → r ≡ b * s * rate_scale / slots_per_year / bps_scaler
unfolding accrued_rate
accrued_rate_lem b s r h = ground arith

scaled_by_rate_lem : (r x y : ℕ) → scaled_by_rate r x ≡ ok y → y ≡ r * x / rate_scale
unfolding scaled_by_rate
scaled_by_rate_lem r x y h = ground arith

-- What an accrual wrote: the debt and the index grow by the same rate, rounded down, the fees
-- by their share of the new debt, and nothing else changes.
pub record Accrued (rate fee : ℕ) (l l' : ReserveLiquidity) : Type 0 where
  pub debt : l'.borrowed_amount_sf ≡ l.borrowed_amount_sf + rate * l.borrowed_amount_sf / rate_scale
  pub fees :
      l'.accumulated_protocol_fees
      ≡ l.accumulated_protocol_fees + rate * l.borrowed_amount_sf / rate_scale * fee / bps_scaler
  pub index :
      l'.cumulative_borrow_rate_sf
      ≡ l.cumulative_borrow_rate_sf + rate * l.cumulative_borrow_rate_sf / rate_scale
  pub available : l'.available_amount ≡ l.available_amount
  pub price : l'.market_price_sf ≡ l.market_price_sf

pub accured_interest-Accrued :
    (b s fee : ℕ) (l l' : ReserveLiquidity)
    → accured_interest b s fee l ≡ ok l'
    → Accrued (b * s * rate_scale / slots_per_year / bps_scaler) fee l l'
unfolding accured_interest accrued_rate scaled_by_rate
accured_interest-Accrued b s fee l l' h = ground arith

-- The fee on new debt is at most a tenth of it where the fee is at most 1000 bps.
fee_share : (d fee : ℕ) → fee ≤ 1_000 → d * fee / bps_scaler * 10 ≤ d
fee_share d fee h = grind arith

-- A successful accrual with a fee of at most 1000 bps never lowers the debt, the fees or the
-- index, takes at most a tenth of the new debt as fees, and so never lowers the supply that the
-- depositors own; what is available is untouched.
pub accured_interest-grows :
    (b s fee : ℕ) (l l' : ReserveLiquidity)
    → fee ≤ 1_000
    → accured_interest b s fee l ≡ ok l'
    → (l.borrowed_amount_sf ≤ l'.borrowed_amount_sf)
      × (l.cumulative_borrow_rate_sf ≤ l'.cumulative_borrow_rate_sf)
      × (l.accumulated_protocol_fees ≤ l'.accumulated_protocol_fees)
      × ((l'.accumulated_protocol_fees - l.accumulated_protocol_fees) * 10
          ≤ l'.borrowed_amount_sf - l.borrowed_amount_sf)
      × (l'.available_amount ≡ l.available_amount)
      × ((t t' : ℕ) → total_supply l ≡ ok t → total_supply l' ≡ ok t' → t ≤ t')
unfolding total_supply
accured_interest-grows b s fee l l' hf h =
    let a = accured_interest-Accrued b s fee l l' h in
    let d = b * s * rate_scale / slots_per_year / bps_scaler * l.borrowed_amount_sf / rate_scale in
    let f = fee_share d fee hf in
    (
      omega arith,
      omega arith,
      omega arith,
      omega arith,
      a.available,
      λ t t' p q. ground (arith, a, f),
    )

-- The debt and the index carry the same interest: a successful accrual multiplies both by
-- `1 + rate / rate_scale`, each rounded down to within one unit, where `rate` is the rate in basis
-- points for the slots that passed, as a scaled share of a year.
pub debt-follows-index :
    (b s fee : ℕ) (l l' : ReserveLiquidity)
    → accured_interest b s fee l ≡ ok l'
    → let rate = b * s * rate_scale / slots_per_year / bps_scaler in
      (l'.borrowed_amount_sf * rate_scale ≤ l.borrowed_amount_sf * (rate_scale + rate))
      × (l.borrowed_amount_sf * (rate_scale + rate) < (l'.borrowed_amount_sf + 1) * rate_scale)
      × (l'.cumulative_borrow_rate_sf * rate_scale
          ≤ l.cumulative_borrow_rate_sf * (rate_scale + rate))
      × (l.cumulative_borrow_rate_sf * (rate_scale + rate)
          < (l'.cumulative_borrow_rate_sf + 1) * rate_scale)
debt-follows-index b s fee l l' h =
    let a = accured_interest-Accrued b s fee l l' h in
    (omega arith, omega arith, omega arith, omega arith)
