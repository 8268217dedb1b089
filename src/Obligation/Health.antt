-- ===== src/Obligation/Health.antt =====
-- The health factor: what the code computes, and what its two slices and its missing scale mean.
use veil_vault.Base.{
  ℕ, ◌*◌, ◌/◌, ◌≤◌, ◌<◌, ◌≡◌, ◌≢◌, ◌⊎◌, ◌↔◌, true, false, none, some, ok, arith, take, ◌==◌,
  if◌then◌else◌,
}
use veil_vault.Constants.{rate_scale}
use veil_vault.Obligation.{Obligation, deposit_value, borrow_value, health_factor, is_healthy}
use veil_vault.Obligation.Keys.{count-le-length}
use veil_vault.Obligation.Slots.{prefix, active_values}
use veil_vault.Obligation.Valid.{IsValid, deposit_key, borrow_key}

-- The collateral and the debt that the health factor sees: the sums over the first slots, as
-- many as there are active ones.
abbrev pub seen_collateral : Obligation → ℕ
seen_collateral o = active_values deposit_value (take o.deposits_count o.deposits)

abbrev pub seen_debt : Obligation → ℕ
seen_debt o = active_values borrow_value (take o.borrows_count o.borrows)

div_ge_iff : (d b : ℕ) → b ≢ 0 → (rate_scale ≤ d / b) ↔ (rate_scale * b ≤ d)
div_ge_iff d b ne = (λ h. grind arith, λ h. grind arith)

-- On a valid obligation the slices do not panic.
pub health_factor_lem :
    (o : Obligation)
    → IsValid o
    → health_factor o
      ≡ ok (if seen_debt o == 0 then none else some (seen_collateral o / seen_debt o))
unfolding health_factor prefix
health_factor_lem o v =
    ground (arith, v, count-le-length deposit_key o.deposits, count-le-length borrow_key o.borrows)

-- A valid obligation counts as healthy exactly when the debt seen is 0 or the collateral seen is
-- at least 10^12 times the debt seen, and as unhealthy exactly when there is a debt seen and the
-- collateral seen is less than that.
pub is_healthy_iff :
    (o : Obligation)
    → IsValid o
    → ((is_healthy o ≡ ok true)
        ↔ ((seen_debt o ≡ 0) ⊎ (rate_scale * seen_debt o ≤ seen_collateral o)))
      × ((is_healthy o ≡ ok false)
          ↔ ((0 < seen_debt o) × (seen_collateral o < rate_scale * seen_debt o)))
unfolding is_healthy
is_healthy_iff o v =
    let hf = health_factor_lem o v in
    let ge = div_ge_iff (seen_collateral o) (seen_debt o) in
    (
      (λ h. ground (arith, hf, ge), λ h. ground (arith, hf, ge)),
      (λ h. ground (arith, hf, ge), λ h. ground (arith, hf, ge)),
    )
