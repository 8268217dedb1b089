-- ===== src/Prices/Scaling.antt =====
-- What a price that `get_pyth_price` accepts satisfies.
use veil_vault.Base.{
  ℕ, suc, ◌+◌, ◌-◌, ◌*◌, ◌/◌, ◌^◌, ◌≤◌, ◌<◌, ◌≡◌, ◌≢◌, true, some, Result-cases, inl, inr, ok,
  arith,
}
use veil_vault.Int.{ℤ, pos, negsuc, pos_part, neg_part}
use veil_vault.Constants.{rate_scale}
use veil_vault.Prices.{PriceUpdate, scale_price, get_pyth_price}

div_bounds : (x m : ℕ) → m ≢ 0 → (x / m * m ≤ x) × (x < (x / m + 1) * m)
div_bounds x m ne = (omega arith, grind arith)

scale_price-negsuc :
    (price price_sf e : ℕ)
    → scale_price price (negsuc e) ≡ ok price_sf
    → (price_sf ≡ price * rate_scale / 10 ^ suc e) × (10 ^ suc e ≢ 0)
unfolding scale_price
scale_price-negsuc price price_sf e h = ground arith

-- A successful scaling of a price by its exponent is exact for an exponent of 0 or more, and rounds
-- down to within one unit for a negative one: `price_sf` is `price * 10^exponent * rate_scale`.
pub scale_price_bounds :
    (price price_sf : ℕ) (e : ℤ)
    → scale_price price e ≡ ok price_sf
    → (price_sf * 10 ^ neg_part e ≤ price * rate_scale * 10 ^ pos_part e)
      × (price * rate_scale * 10 ^ pos_part e < (price_sf + 1) * 10 ^ neg_part e)
unfolding scale_price
scale_price_bounds price price_sf (pos e) h =
    let same : price_sf ≡ price * rate_scale * 10 ^ e = ground arith in
    rw same (omega arith, omega arith)
scale_price_bounds price price_sf (negsuc e) h =
    let (e', ne) = scale_price-negsuc price price_sf e h in
    let (low, high) = div_bounds (price * rate_scale) (10 ^ suc e) ne in
    rw e' (omega arith, omega arith)

-- The checks of an accepted price, before its scaling is taken apart.
accepted :
    (u : PriceUpdate) (age : ℕ) (now time : ℤ) (price_sf : ℕ)
    → age < 2 ^ 63 - 1
    → pos_part u.price < 2 ^ 63
    → get_pyth_price (some u) age now ≡ ok (price_sf, time)
    → (u.verified_full ≡ true)
      × (time ≡ u.publish_time)
      × (pos_part now + neg_part time ≤ neg_part now + pos_part time + age)
      × (0 < pos_part u.price)
      × (u.conf * 50 ≤ pos_part u.price)
      × (scale_price (pos_part u.price) u.exponent ≡ ok price_sf)
unfolding get_pyth_price
accepted u age now time price_sf w p h =
    elim (Result-cases (scale_price (pos_part u.price) u.exponent)) [
      | inl (e, q) ↦ absurd (ground arith)
      | inr (s, q) ↦ ground arith
    ]

-- With an age below `2^63 - 1` and a price in the range of an `i64`, an accepted price comes from a
-- fully verified message that is at most `age` seconds old, is positive, has a confidence interval
-- of at most 2% of it, and comes out as `price * 10^exponent * rate_scale`, exactly for an exponent
-- of 0 or more and rounded down to within one unit for a negative one.
pub get_pyth_price-checks :
    (u : PriceUpdate) (age : ℕ) (now time : ℤ) (price_sf : ℕ)
    → age < 2 ^ 63 - 1
    → pos_part u.price < 2 ^ 63
    → get_pyth_price (some u) age now ≡ ok (price_sf, time)
    → (u.verified_full ≡ true)
      × (time ≡ u.publish_time)
      × (pos_part now + neg_part time ≤ neg_part now + pos_part time + age)
      × (0 < pos_part u.price)
      × (u.conf * 50 ≤ pos_part u.price)
      × (price_sf * 10 ^ neg_part u.exponent
          ≤ pos_part u.price * rate_scale * 10 ^ pos_part u.exponent)
      × (pos_part u.price * rate_scale * 10 ^ pos_part u.exponent
          < (price_sf + 1) * 10 ^ neg_part u.exponent)
get_pyth_price-checks u age now time price_sf w p h =
    let (full, published, young, positive, narrow, scaled) =
      accepted u age now time price_sf w p h in
    let (low, high) = scale_price_bounds (pos_part u.price) price_sf u.exponent scaled in
    (full, published, young, positive, narrow, low, high)
