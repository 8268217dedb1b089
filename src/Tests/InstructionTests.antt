-- ===== src/Tests/InstructionTests.antt =====
-- Moves of collateral, loans and liquidations at the position of the obligation's tests.
use veil_vault.Base.{ℕ, ◌+◌, ◌*◌, ◌≤◌, ◌≡◌, refl, true, ◌∷◌, ok, arith, replicate, position}
use veil_vault.LastUpdate.{is_slot_stale}
use veil_vault.Obligation
use veil_vault.Obligation.{
  Obligation, liquidity_default, find_borrow, find_deposit, find_or_add_borrow, accrue_slot,
  health_factor, is_healthy,
}
use veil_vault.Obligation.Slots.{prefix, active_values, fold_values}
use veil_vault.Obligation.Health.{seen_debt, seen_collateral}
use veil_vault.Instructions.Liquidate.{
  WithdrawSide, repay_capped, ctokens_for, seize_capped, liquidate_position,
}
use veil_vault.Instructions.Liquidate.Effects.{Liquidated, liquidate_position-Liquidated}
use veil_vault.Instructions.Borrow.{sum_values, accrue_existing, check_covered, borrow_obligation}
use veil_vault.Instructions.Borrow.Covered.{borrow_obligation-covered}
use veil_vault.Instructions.WithdrawCollateral.{require_healthy, discount_slot, withdraw_obligation}
use veil_vault.Instructions.WithdrawCollateral.Healthy.{withdraw_obligation-is_healthy}
use veil_vault.Tests.ObligationTests.{
  locked, debt, debt', position_of, one_deposit, user, user-IsValid,
}

abbrev pub side : WithdrawSide
side = record {
  price_sf = 1_000_000_000_000;
  total_liquidity = 9_990;
  ctoken_supply = 5_000;
  bonus_bps = 500;
}

abbrev liquidated : Obligation
liquidated =
    position_of (one_deposit 2_790)
      (record debt { borrowed_amount_sf = 200_000_000_000_000 }
        ∷ debt'
        ∷ replicate 6 liquidity_default)
      1 2

-- 500 tokens are offered for a debt of 400: 200 are taken, for 210 cTokens.
liquidate_run :
    liquidate_position 6 5 500 2_000_000_000_000 1_000_000_000_000 side user
    ≡ ok (liquidated, 200, 210)
unfolding liquidate_position find_borrow find_deposit position Obligation.accrue_interest
    accrue_slot repay_capped ctokens_for seize_capped Obligation.repay Obligation.withdraw
liquidate_run = refl

liquidate_position-Liquidated_example :
    Liquidated 6 5 500 2_000_000_000_000 1_000_000_000_000 side user liquidated 200 210
liquidate_position-Liquidated_example =
    liquidate_position-Liquidated 6 5 500 2_000_000_000_000 1_000_000_000_000 side user liquidated
      200 210 (omega arith) (omega arith) user-IsValid (omega arith) (omega arith) (omega arith)
      liquidate_run

abbrev borrowed_more : Obligation
borrowed_more =
    position_of (one_deposit 3_000)
      (debt
        ∷ debt'
        ∷ record liquidity_default {
          borrow_reserve = 8;
          borrowed_amount_sf = 30_000_000_000_000;
          cumulative_borrow_rate_sf = 1_100_000_000_000;
        }
        ∷ replicate 5 liquidity_default)
      1 3

borrow_run : borrow_obligation 8 30 1_100_000_000_000 1_000_000_000_000 200 user ≡ ok borrowed_more
unfolding borrow_obligation is_slot_stale accrue_existing find_borrow position Obligation.borrow
    find_or_add_borrow check_covered prefix sum_values
borrow_run = refl

borrow_obligation-covered_example :
    seen_debt borrowed_more + 30 * 1_000_000_000_000 ≤ seen_collateral borrowed_more
borrow_obligation-covered_example =
    (borrow_obligation-covered 8 30 1_100_000_000_000 1_000_000_000_000 200 user borrowed_more
      (omega arith) user-IsValid borrow_run).2

-- The debt is so small that the collateral is 10^12 times as large.
abbrev pub rich : ℕ → ℕ → Obligation
rich n value =
    position_of
      (record locked { deposited_amount = n; market_value_sf = value }
        ∷ replicate 7 Obligation.collateral_default)
      (record debt { market_value_sf = 100 } ∷ replicate 7 liquidity_default) 1 1

rich-IsValid : Obligation.Valid.IsValid (rich 3_000 4_000_000_000_000_000)
rich-IsValid = record {
  unique_deposits = ground arith;
  unique_borrows = ground arith;
  deposits_counted = refl;
  borrows_counted = refl;
  deposits_length = refl;
  borrows_length = refl;
}

withdraw_run :
    withdraw_obligation 5 1_000 200 (rich 3_000 4_000_000_000_000_000)
    ≡ ok (rich 2_000 2_666_666_666_666_666)
unfolding withdraw_obligation is_slot_stale find_deposit position discount_slot Obligation.withdraw
    health_factor prefix active_values fold_values require_healthy
withdraw_run = refl

withdraw_obligation-is_healthy_example : is_healthy (rich 2_000 2_666_666_666_666_666) ≡ ok true
withdraw_obligation-is_healthy_example =
    (withdraw_obligation-is_healthy 5 1_000 200 (rich 3_000 4_000_000_000_000_000)
      (rich 2_000 2_666_666_666_666_666) (omega arith) rich-IsValid withdraw_run).2
