-- ===== src/Instructions/Liquidate/Amounts.antt =====
-- What a liquidation may repay and seize.
use veil_vault.Base.{ℕ, ◌+◌, ◌*◌, ◌/◌, ◌^◌, ◌≤◌, ◌<◌, ◌≡◌, ◌≢◌, ok, arith, min}
use native.Mathlib.Nat.{mul-le-mul_right}
use veil_vault.Constants.{bps_scaler, rate_scale}
use veil_vault.Instructions.Liquidate.{WithdrawSide, repay_capped, ctokens_for, seize_capped}

-- The close factor: a liquidator repays a positive amount, at most what was asked for, and at
-- most half of the scaled debt.
pub repay_capped-le :
    (a debt_sf p : ℕ)
    → repay_capped a debt_sf ≡ ok p
    → (0 < p) × (p ≤ a) × (p * rate_scale * 2 ≤ debt_sf)
unfolding repay_capped
repay_capped-le a debt_sf p h = ground arith

-- The amount seized is positive, and the lesser of the cTokens asked for and those locked (a
-- `u64`).
pub seize_capped-le : (c d n : ℕ) → d < 2 ^ 64 → seize_capped c d ≡ ok n → (0 < n) × (n ≡ min c d)
unfolding seize_capped
seize_capped-le c d n w h = ground arith

div_mul_le : (x m : ℕ) → m ≢ 0 → x / m * m ≤ x
div_mul_le x m ne = omega arith

-- Rounding down three times on the way from a repaid value to cTokens.
three_divs :
    (v k price total supply n : ℕ)
    → price ≢ 0
    → total ≢ 0
    → n ≡ v / 10_000 / price * supply / total
    → n * total * price * 10_000 ≤ v * supply
three_divs v k price total supply n np nt e =
    let y = v / 10_000 in
    let u = y / price in
    let p1 : n * total ≤ u * supply = rw e (div_mul_le (u * supply) total nt) in
    let p2 : n * total * (price * 10_000) ≤ u * supply * (price * 10_000) =
      mul-le-mul_right (price * 10_000) p1 in
    let q1 : u * price ≤ y = div_mul_le y price np in
    let q2 : u * price * (supply * 10_000) ≤ y * (supply * 10_000) =
      mul-le-mul_right (supply * 10_000) q1 in
    let s1 : y * 10_000 ≤ v = omega arith in
    let s2 : y * 10_000 * supply ≤ v * supply = mul-le-mul_right supply s1 in omega arith

-- The cTokens asked for are worth, at the pool's rate and price, at most the repaid value and the
-- bonus on it.
pub ctokens_for_le :
    (p price n : ℕ) (s : WithdrawSide)
    → s.ctoken_supply ≢ 0
    → s.total_liquidity ≢ 0
    → ctokens_for p price s ≡ ok n
    → n * s.total_liquidity * s.price_sf * bps_scaler
      ≤ p * price * (bps_scaler + s.bonus_bps) * s.ctoken_supply
unfolding ctokens_for
ctokens_for_le p price n s ns nt h =
    let k = bps_scaler + s.bonus_bps in
    let e : n ≡ p * price * k / 10_000 / s.price_sf * s.ctoken_supply / s.total_liquidity =
      ground arith in
    let np : s.price_sf ≢ 0 = ground arith in
    three_divs (p * price * k) k s.price_sf s.total_liquidity s.ctoken_supply n np nt e
