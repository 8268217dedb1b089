-- ===== src/Reserve/Config/Init.antt =====
-- Which configurations are accepted.
use veil_vault.Base.{
  ◌≤◌, ◌<◌, ◌≡◌, ◌↔◌, LendingError, Error, ok, err, arith, inl, inr, Result-cases,
}
use veil_vault.Constants.{max_liquidation_threshold_pct, max_utilization_bps, max_protocol_fee_bps}
use veil_vault.Reserve.Config.{ReserveConfig, InitReserveConfigParams, validate, init, update}

-- The bounds on a reserve's risk parameters, interest curve and fee.
pub record IsValid (c : ReserveConfig) : Type 0 where
  pub ltv : c.loan_to_value_pct < c.liquidation_threshold_pct
  pub threshold : c.liquidation_threshold_pct ≤ max_liquidation_threshold_pct
  pub rates : c.min_borrow_rate_bps ≤ c.optimal_borrow_rate_bps
  pub rates' : c.optimal_borrow_rate_bps ≤ c.max_borrow_rate_bps
  pub utilization : c.optimal_utilization_bps ≤ max_utilization_bps
  pub fee : c.protocol_fee ≤ max_protocol_fee_bps

accepted : (c : ReserveConfig) → validate c ≡ ok tt → IsValid c
unfolding validate
accepted c h = record {
  ltv = ground arith;
  threshold = ground arith;
  rates = ground arith;
  rates' = ground arith;
  utilization = ground arith;
  fee = ground arith;
}

accepted_back : (c : ReserveConfig) → IsValid c → validate c ≡ ok tt
unfolding validate
accepted_back c v = ground arith

refused :
    (c : ReserveConfig) (e : Error)
    → validate c ≡ err e
    → validate c ≡ err (Error.lending LendingError.invalid_config)
unfolding validate
refused c e h = ground arith

-- `validate` accepts exactly the configurations within all the bounds, and refuses all others
-- with one error.
pub validate_iff :
    (c : ReserveConfig)
    → ((validate c ≡ ok tt) ↔ IsValid c)
      × ((validate c ≡ err (Error.lending LendingError.invalid_config)) ↔ (¬ IsValid c))
validate_iff c = (
  (accepted c, accepted_back c),
  (
    λ h v. let k = accepted_back c v in ground arith,
    λ n. elim (Result-cases (validate c)) [
      | inl (e, q) ↦ refused c e q
      | inr (u, q) ↦ absurd (n (accepted c q))
    ],
  ),
)

-- A reserve is configured from parameters only with a valid configuration, which does not depend
-- on the old one, and which `update` accepts as it is.
pub configured-IsValid :
    (p : InitReserveConfigParams) (new old c : ReserveConfig)
    → init p old ≡ ok c
    → IsValid c × (init p new ≡ ok c) × (update c old ≡ ok c)
unfolding init update
configured-IsValid p new old c h = (ground arith, h, ground arith)
