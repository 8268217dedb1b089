-- ===== src/Circuits/Health.antt =====
-- What the encrypted health check computes.
use veil_vault.Base.{ℕ, ◌*◌, ◌/◌, ◌≤◌, ◌≡◌, arith, leb}
use veil_vault.Circuits.{PrivatePosition, Arcis, check_health_v2}
use veil_vault.Circuits.Positions.{IsExact}

-- The ranges that the circuits' header states: whole tokens, prices in cents, basis points.
pub record InRange (p : PrivatePosition) (rate price price' ltv : ℕ) : Type 0 where
  pub collateral : p.collateral_tokens ≤ 1_000_000_000
  pub borrow : p.borrow_tokens ≤ 1_000_000_000
  pub rate_le : rate ≤ 20_000
  pub ltv_le : ltv ≤ 10_000
  pub price_le : price ≤ 1_000_000
  pub price'_le : price' ≤ 1_000_000

mul_le : (a b m n : ℕ) → a ≤ m → b ≤ n → a * b ≤ m * n
mul_le a b m n h k = grind arith

module _ {Secret Shared : Type 0} (arcis : Arcis Secret Shared) (exact : IsExact arcis) where
  open exact use {mul_lem, div_lem}

  -- In the stated ranges no product overflows: the check compares the exact values, that of the
  -- collateral rounded down once, before the price.
  pub check_health_v2_lem :
      (s : Secret) (rate price price' ltv : ℕ)
      → InRange (arcis.to_arcis s) rate price price' ltv
      → check_health_v2 arcis s rate price price' ltv
        ≡ leb
            ((arcis.to_arcis s).borrow_tokens * price')
            ((arcis.to_arcis s).collateral_tokens * rate * ltv / 100_000_000 * price)
  unfolding check_health_v2
  check_health_v2_lem s rate price price' ltv r =
      let p = arcis.to_arcis s in
      let c = p.collateral_tokens in
      let b1 = mul_le c rate 1_000_000_000 20_000 r.collateral r.rate_le in
      let b2 = mul_le (c * rate) ltv 20_000_000_000_000 10_000 (omega arith) r.ltv_le in
      let adj = c * rate * ltv / 100_000_000 in
      let b3 = mul_le adj price 2_000_000_000 1_000_000 (omega arith) r.price_le in
      let b4 = mul_le p.borrow_tokens price' 1_000_000_000 1_000_000 r.borrow r.price'_le in
      ground (
        arith,
        mul_lem c rate,
        mul_lem (c * rate) ltv,
        div_lem (c * rate * ltv) 100_000_000,
        mul_lem adj price,
        mul_lem p.borrow_tokens price',
      )
