-- ===== src/Program/Pools.antt =====
-- The configuration of a pool under what the instructions do to the pool.
use veil_vault.Base.{
  ℕ, ◌≡◌, ◌∙◌, Option, not, LendingError, require, ltb, ◌||◌, arith, Ensures, step, returns, ◌==◌,
}
use veil_vault.Constants.{Pubkey, max_age_seconds}
use veil_vault.Prices.{PriceUpdate, get_pyth_price}
use veil_vault.Reserve
use veil_vault.Reserve.{Reserve}
use veil_vault.Reserve.Config.{is_active}
use veil_vault.Runtime.{Clock}
use veil_vault.Instructions.Deposit.{deposit_reserve}
use veil_vault.Instructions.Withdraw.{withdraw_reserve}
use veil_vault.Instructions.Borrow.{borrow_reserve}
use veil_vault.Instructions.Repay.{repay_reserve}
use veil_vault.Instructions.RefreshReserve.{refresh}
use veil_vault.Instructions.Liquidate.{ready_reserve}
use veil_vault.Private.Borrow.{private_borrow_reserve, oracle_is_set}

-- The configuration after is the one before.
abbrev pub KeepsConfig : Reserve → Reserve → Type 0
KeepsConfig r r' = r'.config ≡ r.config

pub accrue_interest-config :
    (slot : ℕ) (r : Reserve) → Ensures (KeepsConfig r) (Reserve.accrue_interest slot r)
unfolding Reserve.accrue_interest
accrue_interest-config slot r = record { holds = λ r' h. ground arith }

deposit_liquidity-config :
    (n : ℕ) (r : Reserve) → Ensures (λ x. KeepsConfig r (x.0)) (Reserve.deposit_liquidity n r)
unfolding Reserve.deposit_liquidity
deposit_liquidity-config n r = record { holds = λ r' h. ground arith }

redeem_collateral-config :
    (n : ℕ) (r : Reserve) → Ensures (λ x. KeepsConfig r (x.0)) (Reserve.redeem_collateral n r)
unfolding Reserve.redeem_collateral
redeem_collateral-config n r = record { holds = λ r' h. ground arith }

borrow-config : (n : ℕ) (r : Reserve) → Ensures (KeepsConfig r) (Reserve.borrow n r)
unfolding Reserve.borrow
borrow-config n r = record { holds = λ r' h. ground arith }

pub repay-config : (n : ℕ) (r : Reserve) → Ensures (KeepsConfig r) (Reserve.repay n r)
unfolding Reserve.repay
repay-config n r = record { holds = λ r' h. ground arith }

module _ (slot n : ℕ) (r : Reserve) where
  pub deposit_reserve-config : Ensures (λ x. KeepsConfig r (x.0)) (deposit_reserve slot n r)
  unfolding deposit_reserve
  deposit_reserve-config = step (require (is_active r.config) LendingError.invalid_config) λ _ _.
      step (Reserve.accrue_interest slot r) λ accrued h. record {
        holds = λ x k.
            (deposit_liquidity-config n accrued).holds x k
            ∙ (accrue_interest-config slot r).holds accrued h;
      }

  pub withdraw_reserve-config : Ensures (λ x. KeepsConfig r (x.0)) (withdraw_reserve slot n r)
  unfolding withdraw_reserve
  withdraw_reserve-config = step (require (is_active r.config) LendingError.invalid_config) λ _ _.
      step (Reserve.accrue_interest slot r) λ accrued h. record {
        holds = λ x k.
            (redeem_collateral-config n accrued).holds x k
            ∙ (accrue_interest-config slot r).holds accrued h;
      }

  pub borrow_reserve-config : Ensures (KeepsConfig r) (borrow_reserve slot n r)
  unfolding borrow_reserve
  borrow_reserve-config = step (require (is_active r.config) LendingError.invalid_config) λ _ _.
      step (require (ltb 0 (r.liquidity.market_price_sf)) LendingError.price_not_valid) λ _ _.
        step (Reserve.accrue_interest slot r) λ accrued h. record {
          holds = λ x k.
              (borrow-config n accrued).holds x k ∙ (accrue_interest-config slot r).holds accrued h;
        }

  pub private_borrow_reserve-config : Ensures (KeepsConfig r) (private_borrow_reserve slot n r)
  unfolding private_borrow_reserve
  private_borrow_reserve-config =
      step (require (is_active r.config) LendingError.invalid_config) λ _ _.
        step
          (require (not (oracle_is_set r) || ltb 0 (r.liquidity.market_price_sf))
            LendingError.price_not_valid)
          λ _ _. step (Reserve.accrue_interest slot r) λ accrued h. record {
            holds = λ x k.
                (borrow-config n accrued).holds x k
                ∙ (accrue_interest-config slot r).holds accrued h;
          }

  pub repay_reserve-config : Ensures (λ x. KeepsConfig r (x.0)) (repay_reserve slot n r)
  unfolding repay_reserve
  repay_reserve-config = step (require (is_active r.config) LendingError.invalid_config) λ _ _.
      step (Reserve.accrue_interest slot r) λ accrued h. step (Reserve.repay n accrued) λ r' k.
        returns
          ((repay-config n accrued).holds r' k ∙ (accrue_interest-config slot r).holds accrued h)

pub ready_reserve-config : (slot : ℕ) (r : Reserve) → Ensures (KeepsConfig r) (ready_reserve slot r)
unfolding ready_reserve
ready_reserve-config slot r = step (require (is_active r.config) LendingError.invalid_config) λ _ _.
    step (Reserve.accrue_interest slot r) λ accrued h.
      step (require (ltb 0 (accrued.liquidity.market_price_sf)) LendingError.price_not_valid)
        λ _ _. returns ((accrue_interest-config slot r).holds accrued h)

pub refresh-config :
    (oracle : Pubkey) (u : Option PriceUpdate) (clock : Clock) (r : Reserve)
    → Ensures (KeepsConfig r) (refresh oracle u clock r)
unfolding refresh
refresh-config oracle u clock r =
    step (require (oracle == r.config.pyth_oracle) LendingError.invalid_config) λ _ _.
      step (Reserve.accrue_interest (clock.slot) r) λ accrued h.
        step (get_pyth_price u max_age_seconds (clock.unix_timestamp))
          λ (price, time) _. returns ((accrue_interest-config (clock.slot) r).holds accrued h)
