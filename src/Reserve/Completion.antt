-- ===== src/Reserve/Completion.antt =====
-- programs/veilvault/src/state/reserve.rs: when the interest of a pool can be brought up to date.
use veil_vault.Base.{
  ℕ, ◌+◌, ◌-◌, ◌*◌, ◌/◌, ◌^◌, ◌≤◌, ◌<◌, ◌≡◌, refl, inl, inr, ok, arith, saturating_sub, ltb, ◌==◌,
  Bool-cases,
}
use veil_vault.Constants.{slots_per_year, rate_scale, bps_scaler}
use veil_vault.Reserve
use veil_vault.Reserve.{Reserve, current_borrow_rate}
use veil_vault.Reserve.Config.Init.{IsValid}
use veil_vault.Reserve.Config.Rate.{curve, borrow_rate-eq-curve, borrow_rate_bounds}
use veil_vault.Reserve.Liquidity.{ReserveLiquidity, accrued_rate, scaled_by_rate, accured_interest}
use veil_vault.Reserve.Liquidity.Supply.{utilization_rate-le}

mul_le : (a b m n : ℕ) → a ≤ m → b ≤ n → a * b ≤ m * n
mul_le a b m n h k = grind arith

-- Over a year at most, at a rate of 16 bits.
accrued_rate_total :
    (rate slots : ℕ)
    → rate < 2 ^ 16
    → slots ≤ slots_per_year
    → (x : ℕ) × (accrued_rate rate slots ≡ ok x) × (x < 2 ^ 43)
unfolding accrued_rate
accrued_rate_total rate slots h k =
    let le = mul_le rate slots (2 ^ 16 - 1) slots_per_year (omega arith) k in
    (rate * slots * rate_scale / slots_per_year / bps_scaler, ground arith, omega arith)

scaled_by_rate_total :
    (rate amount : ℕ)
    → rate < 2 ^ 43
    → amount < 2 ^ 84
    → (x : ℕ) × (scaled_by_rate rate amount ≡ ok x) × (x < 2 ^ 88)
unfolding scaled_by_rate
scaled_by_rate_total rate amount h k =
    let le = mul_le rate amount (2 ^ 43 - 1) (2 ^ 84 - 1) (omega arith) (omega arith) in
    (rate * amount / rate_scale, ground arith, omega arith)

-- The amounts of a pool that leave room for a year's interest.
pub record HasRoom (l : ReserveLiquidity) : Type 0 where
  pub covered : l.accumulated_protocol_fees ≤ l.available_amount
  pub available : l.available_amount < 2 ^ 64
  pub debt : l.borrowed_amount_sf < 2 ^ 84
  pub index : l.cumulative_borrow_rate_sf < 2 ^ 84

accured_interest_total :
    (rate slots fee : ℕ) (l : ReserveLiquidity)
    → 0 < rate
    → rate < 2 ^ 16
    → 0 < slots
    → slots ≤ slots_per_year
    → fee ≤ 1_000
    → HasRoom l
    → (l' : ReserveLiquidity) × (accured_interest rate slots fee l ≡ ok l')
unfolding accured_interest
accured_interest_total rate slots fee l p h q k f room =
    let (x, e, lt) = accrued_rate_total rate slots h k in
    let (d, e', lt') = scaled_by_rate_total x l.borrowed_amount_sf lt room.debt in
    let (i, e'', lt'') = scaled_by_rate_total x l.cumulative_borrow_rate_sf lt room.index in
    let le = mul_le d fee (2 ^ 88) 1_000 (omega arith) f in
    (
      record l {
        borrowed_amount_sf = l.borrowed_amount_sf + d;
        accumulated_protocol_fees = l.accumulated_protocol_fees + d * fee / bps_scaler;
        cumulative_borrow_rate_sf = l.cumulative_borrow_rate_sf + i;
      },
      ground (arith, room),
    )

current_borrow_rate_total :
    (r : Reserve)
    → IsValid r.config
    → r.config.max_borrow_rate_bps < 2 ^ 16
    → HasRoom r.liquidity
    → (b : ℕ) × (current_borrow_rate r ≡ ok b) × (b < 2 ^ 16)
unfolding current_borrow_rate
current_borrow_rate_total r v w room =
    let (u, e, le) =
      utilization_rate-le r.liquidity room.covered room.available (omega (arith, room)) in
    let h = borrow_rate-eq-curve r.config v w (u * 100) (omega arith) in
    let bound =
      borrow_rate_bounds r.config v w (u * 100) (curve r.config (u * 100)) (omega arith) h in
    (curve r.config (u * 100), ground arith, omega arith)

-- Interest can always be brought up to date: on a valid configuration whose rates are `u16`
-- values, for a pool whose fees are covered by its `u64` of available tokens and whose debt and
-- index are below 2^84, and up to a year after its last update, the accrual succeeds, and the pool
-- it returns is current.
pub accrue_interest_total :
    (slot : ℕ) (r : Reserve)
    → IsValid r.config
    → r.config.max_borrow_rate_bps < 2 ^ 16
    → HasRoom r.liquidity
    → slot ≤ r.last_update_slot + slots_per_year
    → (r' : Reserve) × (Reserve.accrue_interest slot r ≡ ok r') × (slot ≤ r'.last_update_slot)
unfolding Reserve.accrue_interest
accrue_interest_total slot r v w room h =
    let (b, e, lt) = current_borrow_rate_total r v w room in
    elim (Bool-cases (saturating_sub slot r.last_update_slot == 0)) [
      | inl same ↦ (r, rw same refl, ground arith)
      | inr later ↦ elim (Bool-cases (ltb 0 b)) [
        | inl pos ↦
            let (l, k) =
              accured_interest_total b (saturating_sub slot r.last_update_slot)
                r.config.protocol_fee r.liquidity (ground arith) lt (ground arith) (ground arith)
                (omega (arith, v.fee)) room in
            (
              record r { liquidity = l; last_update_slot = slot },
              rw (later, e, pos, k) refl,
              omega arith,
            )
        | inr none_ ↦ (record r { last_update_slot = slot }, rw (later, e, none_) refl, omega arith)
      ]
    ]
