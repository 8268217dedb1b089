-- ===== src/Reserve/Config/Rate.antt =====
-- The interest curve: total on valid configurations, within its bounds, and rising.
use veil_vault.Base.{
  ℕ, ◌+◌, ◌-◌, ◌*◌, ◌/◌, ◌^◌, ◌≤◌, ◌<◌, ◌≡◌, inl, inr, ok, arith, leb, if◌then◌else◌, Bool-cases,
}
use veil_vault.Constants.{bps_scaler}
use veil_vault.Reserve.Config.{ReserveConfig, segment, borrow_rate}
use veil_vault.Reserve.Config.Init.{IsValid}

-- `min + run * rise / width` as exact arithmetic.
abbrev line : (base run rise width : ℕ) → ℕ
line base run rise width = base + run * rise / width

line-le : (base run rise width : ℕ) → run ≤ width → line base run rise width ≤ base + rise
line-le base run rise width h = grind arith

line_mono : (base r s rise width : ℕ) → r ≤ s → line base r rise width ≤ line base s rise width
line_mono base r s rise width h = grind arith

segment_lem :
    (base run rise width : ℕ)
    → run ≤ 10_000
    → base + rise < 2 ^ 16
    → run ≤ width
    → segment base run rise width ≡ ok (line base run rise width)
unfolding segment
segment_lem base run rise width h k w =
    let small : run * rise ≤ 10_000 * rise = grind arith in
    ground (arith, line-le base run rise width w)

-- The curve without machine arithmetic.
pub curve : ReserveConfig → ℕ → ℕ
curve c util =
    if leb util c.optimal_utilization_bps
    then line c.min_borrow_rate_bps util (c.optimal_borrow_rate_bps - c.min_borrow_rate_bps)
        c.optimal_utilization_bps
    else line c.optimal_borrow_rate_bps (util - c.optimal_utilization_bps)
        (c.max_borrow_rate_bps - c.optimal_borrow_rate_bps) (bps_scaler - c.optimal_utilization_bps)

module _ (c : ReserveConfig) (v : IsValid c) (w : c.max_borrow_rate_bps < 2 ^ 16) where
  -- On a valid configuration whose rates are `u16` values, and for a utilization of at most
  -- 100%, the borrow rate is the exact value of the kinked curve: no step overflows, and the cast
  -- to `u16` loses nothing.
  pub borrow_rate-eq-curve : (u : ℕ) → u ≤ 10_000 → borrow_rate c u ≡ ok (curve c u)
  unfolding borrow_rate curve
  borrow_rate-eq-curve u h = elim (Bool-cases (leb u c.optimal_utilization_bps)) [
    | inl low ↦
        let rise = c.optimal_borrow_rate_bps - c.min_borrow_rate_bps in
        let wide = c.optimal_utilization_bps in
        rw (low, segment_lem c.min_borrow_rate_bps u rise wide h (omega arith) (ground arith))
          (ground (arith, line-le c.min_borrow_rate_bps u rise wide))
    | inr high ↦
        let run = u - c.optimal_utilization_bps in
        let rise = c.max_borrow_rate_bps - c.optimal_borrow_rate_bps in
        let wide = bps_scaler - c.optimal_utilization_bps in
        rw
          (
            high,
            segment_lem c.optimal_borrow_rate_bps run rise wide (omega arith) (omega arith)
                (omega arith),
          )
          (ground (arith, line-le c.optimal_borrow_rate_bps run rise wide))
  ]

  -- There it stays between the smallest and the largest rate, on the right side of the kink.
  curve_bounds :
      (u : ℕ)
      → u ≤ 10_000
      → (c.min_borrow_rate_bps ≤ curve c u) × (curve c u ≤ c.max_borrow_rate_bps)
  unfolding curve
  curve_bounds u h = ground (
    arith,
    line-le c.min_borrow_rate_bps u (c.optimal_borrow_rate_bps - c.min_borrow_rate_bps)
        c.optimal_utilization_bps,
    line-le c.optimal_borrow_rate_bps (u - c.optimal_utilization_bps)
        (c.max_borrow_rate_bps - c.optimal_borrow_rate_bps)
        (bps_scaler - c.optimal_utilization_bps),
  )

  -- It never falls as the utilization rises.
  curve_mono : (u u' : ℕ) → u ≤ u' → u' ≤ 10_000 → curve c u ≤ curve c u'
  unfolding curve
  curve_mono u u' h k =
      let rise = c.optimal_borrow_rate_bps - c.min_borrow_rate_bps in
      let rise' = c.max_borrow_rate_bps - c.optimal_borrow_rate_bps in
      let kink = c.optimal_utilization_bps in
      ground (
        arith,
        line-le c.min_borrow_rate_bps u rise kink,
        line_mono c.min_borrow_rate_bps u u' rise kink h,
        line_mono c.optimal_borrow_rate_bps (u - kink) (u' - kink) rise' (bps_scaler - kink)
            (omega arith),
      )

  -- On a valid configuration whose rates are `u16` values, up to full utilization, a borrow rate
  -- that is returned lies between the smallest and the largest rate, on the right side of the
  -- kink: it is at most the optimal rate up to the optimal utilization, and at least that beyond.
  pub borrow_rate_bounds :
      (u b : ℕ)
      → u ≤ 10_000
      → borrow_rate c u ≡ ok b
      → (c.min_borrow_rate_bps ≤ b)
        × (b ≤ c.max_borrow_rate_bps)
        × (if leb u c.optimal_utilization_bps
            then b ≤ c.optimal_borrow_rate_bps
            else c.optimal_borrow_rate_bps ≤ b)
  unfolding curve
  borrow_rate_bounds u b h k =
      let e : curve c u ≡ b = ground (arith, borrow_rate-eq-curve u h) in
      let (least, most) = curve_bounds u h in
      (
        omega arith,
        omega arith,
        ground (
          arith,
          line-le c.min_borrow_rate_bps u (c.optimal_borrow_rate_bps - c.min_borrow_rate_bps)
              c.optimal_utilization_bps,
        ),
      )

  -- On a valid configuration whose rates are `u16` values, a borrow rate that is returned never
  -- falls as the utilization rises, up to 100%.
  pub borrow_rate_mono :
      (u u' b b' : ℕ)
      → u ≤ u'
      → u' ≤ 10_000
      → borrow_rate c u ≡ ok b
      → borrow_rate c u' ≡ ok b'
      → b ≤ b'
  borrow_rate_mono u u' b b' h k p q =
      let e : curve c u ≡ b = ground (arith, borrow_rate-eq-curve u (omega arith)) in
      let e' : curve c u' ≡ b' = ground (arith, borrow_rate-eq-curve u' k) in
      omega (arith, curve_mono u u' h k)
