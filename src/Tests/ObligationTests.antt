-- ===== src/Tests/ObligationTests.antt =====
-- An obligation with one deposit and two debts, and the theorems on obligations at it.
use veil_vault.Base.{
  ℕ, ◌+◌, ◌*◌, ◌≤◌, ◌<◌, ◌≡◌, ◌≢◌, ◌↔◌, ◌⊎◌, refl, true, false, List, ◌∷◌, ok, arith, replicate,
  position,
}
use veil_vault.Int.{pos}
use veil_vault.Constants.{Pubkey, rate_scale}
use veil_vault.Obligation
use veil_vault.Obligation.{
  Obligation, ObligationCollateral, ObligationLiquidity, collateral_default, liquidity_default,
  obligation_default, find_deposit, find_borrow, find_or_add_deposit, find_or_add_borrow,
  accrue_slot, is_healthy,
}
use veil_vault.Obligation.Valid.{IsValid, Updated, deposited, owed}
use veil_vault.Obligation.Deposits.{deposit-Updated, withdraw-Updated, withdraw-deposit}
use veil_vault.Obligation.Borrows.{borrow-Updated, repay-Updated}
use veil_vault.Obligation.Health.{is_healthy_iff, seen_debt, seen_collateral}
use veil_vault.Obligation.Hidden.{repay_first-is_healthy}

-- 3000 cTokens of reserve 5, priced at 5000 tokens of a price of 1, times 80%.
abbrev pub locked : ObligationCollateral
locked = record {
  deposit_reserve = 5;
  deposited_amount = 3_000;
  market_value_sf = 4_000_000_000_000_000;
}

-- 400 tokens of reserve 6 at a price of 2, and 100 tokens of reserve 7 at a price of 1.
abbrev pub debt : ObligationLiquidity
debt = record {
  borrow_reserve = 6;
  borrowed_amount_sf = 400_000_000_000_000;
  cumulative_borrow_rate_sf = 1_000_000_000_000;
  market_value_sf = 800_000_000_000_000;
}

abbrev pub debt' : ObligationLiquidity
debt' = record {
  borrow_reserve = 7;
  borrowed_amount_sf = 100_000_000_000_000;
  cumulative_borrow_rate_sf = 1_000_000_000_000;
  market_value_sf = 100_000_000_000_000;
}

abbrev pub position_of : List ObligationCollateral → List ObligationLiquidity → ℕ → ℕ → Obligation
position_of ds bs n k = record {
  lending_market = 1;
  owner = 9;
  last_update = record { slot = 200; timestamp = pos 1_000_000 };
  deposits = ds;
  borrows = bs;
  deposits_count = n;
  borrows_count = k;
  bump = 254;
}

abbrev pub one_deposit : ℕ → List ObligationCollateral
one_deposit n = record locked { deposited_amount = n } ∷ replicate 7 collateral_default

abbrev pub user : Obligation
user = position_of (one_deposit 3_000) (debt ∷ debt' ∷ replicate 6 liquidity_default) 1 2

pub user-IsValid : IsValid user
user-IsValid = record {
  unique_deposits = ground arith;
  unique_borrows = ground arith;
  deposits_counted = refl;
  borrows_counted = refl;
  deposits_length = refl;
  borrows_length = refl;
}

abbrev deposited_more : Obligation
deposited_more = position_of (one_deposit 3_500) (debt ∷ debt' ∷ replicate 6 liquidity_default) 1 2

deposit_run : Obligation.deposit 5 500 user ≡ ok deposited_more
unfolding Obligation.deposit find_or_add_deposit position
deposit_run = refl

deposit-Updated_example : Updated (deposited user) (deposited deposited_more) 5 (3_000 + 500)
deposit-Updated_example =
    (deposit-Updated 5 500 user deposited_more (omega arith) user-IsValid deposit_run).1

withdraw-deposit_example :
    (o'' : Obligation) × (Obligation.withdraw 5 500 deposited_more ≡ ok o'')
    × ((j : Pubkey) → j ≢ 0 → deposited o'' j ≡ deposited user j)
withdraw-deposit_example =
    withdraw-deposit 5 500 user deposited_more (omega arith) user-IsValid deposit_run

abbrev emptied : Obligation
emptied =
    position_of (replicate 8 collateral_default) (debt ∷ debt' ∷ replicate 6 liquidity_default) 0 2

withdraw_run : Obligation.withdraw 5 3_000 user ≡ ok emptied
unfolding Obligation.withdraw find_deposit position
withdraw_run = refl

withdraw-Updated_example : IsValid emptied
withdraw-Updated_example =
    (withdraw-Updated 5 3_000 user emptied (omega arith) user-IsValid withdraw_run).0

abbrev third_debt : ObligationLiquidity
third_debt = record liquidity_default {
  borrow_reserve = 8;
  borrowed_amount_sf = 30_000_000_000_000;
  cumulative_borrow_rate_sf = 1_100_000_000_000;
}

abbrev borrowed_more : Obligation
borrowed_more =
    position_of (one_deposit 3_000) (debt ∷ debt' ∷ third_debt ∷ replicate 5 liquidity_default) 1 3

borrow_run : Obligation.borrow 8 30 1_100_000_000_000 user ≡ ok borrowed_more
unfolding Obligation.borrow find_or_add_borrow position
borrow_run = refl

borrow-Updated_example : Updated (owed user) (owed borrowed_more) 8 (0 + 30 * rate_scale)
borrow-Updated_example =
    (borrow-Updated 8 30 1_100_000_000_000 user borrowed_more (omega arith) user-IsValid
      borrow_run).1

abbrev repaid : Obligation
repaid =
    position_of (one_deposit 3_000) (liquidity_default ∷ debt' ∷ replicate 6 liquidity_default) 1 1

repay_run : Obligation.repay 6 400 user ≡ ok repaid
unfolding Obligation.repay find_borrow position
repay_run = refl

repay-Updated_example : Updated (owed user) (owed repaid) 6 0
repay-Updated_example = (repay-Updated 6 400 user repaid (omega arith) user-IsValid repay_run).2

-- The second debt is still there, and out of sight.
repay_first-is_healthy_example :
    (is_healthy repaid ≡ ok true) × (owed repaid 7 ≡ 100_000_000_000_000)
repay_first-is_healthy_example =
    repay_first-is_healthy 400 user repaid debt debt' (replicate 6 liquidity_default) user-IsValid
      refl refl (omega arith) (omega arith) (omega arith) repay_run

-- Collateral of 4000 and debts of 900, both in USD: unhealthy by the code's comparison.
is_healthy_iff_example :
    ((is_healthy user ≡ ok true)
      ↔ ((seen_debt user ≡ 0) ⊎ (rate_scale * seen_debt user ≤ seen_collateral user)))
    × ((is_healthy user ≡ ok false)
        ↔ ((0 < seen_debt user) × (seen_collateral user < rate_scale * seen_debt user)))
is_healthy_iff_example = is_healthy_iff user user-IsValid

abbrev accrued : ObligationLiquidity
accrued = record debt {
  borrowed_amount_sf = 440_000_000_000_000;
  cumulative_borrow_rate_sf = 1_100_000_000_000;
}
