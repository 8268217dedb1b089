-- ===== src/Instructions/RefreshObligation/Refreshed.antt =====
-- The handler on the loaded obligation.
use mathlib.Core.Path.{ap}
use veil_vault.Base.{
  ℕ, ◌<◌, ◌≡◌, refl, sym, ◌∙◌, false, List, Option, arith, ok, get_elem?, Ensures, step, returns,
}
use veil_vault.Constants.{Pubkey}
use veil_vault.LastUpdate.{is_slot_stale, update}
use veil_vault.Reserve.{Reserve}
use veil_vault.Obligation.{Obligation}
use veil_vault.Runtime.{Clock}
use veil_vault.Instructions.RefreshObligation.{for_range, refresh_borrow, refresh_deposit, refresh}
use veil_vault.Instructions.RefreshObligation.Loops.{for_range-all, for_range-keeps}
use veil_vault.Instructions.RefreshObligation.Pricing.{
  PricedDeposit, PricedBorrow, refresh_deposit-done, refresh_deposit-kept,
}
use veil_vault.Instructions.RefreshObligation.Debts.{refresh_borrow-done, refresh_borrow-kept}

-- The debts and the number of deposits.
abbrev SameRest : Obligation → Obligation → Type 0
SameRest o o' = (o'.borrows ≡ o.borrows) × (o'.deposits_count ≡ o.deposits_count)

module _ (reserves : Pubkey → Option Reserve) (remaining : List Pubkey) where
  refresh_deposit-frame :
      (first : Obligation) (i : ℕ) (o : Obligation)
      → SameRest first o
      → Ensures (SameRest first) (refresh_deposit reserves remaining i o)
  unfolding refresh_deposit
  refresh_deposit-frame first i o (e, n) = record { holds = λ o' h. (ground arith, ground arith) }

  pub record Refreshed (clock : Clock) (o o' : Obligation) : Type 0 where
    pub fresh : is_slot_stale o'.last_update clock.slot ≡ false
    pub deposits : (i : ℕ) → i < o'.deposits_count → PricedDeposit reserves remaining i o'
    pub borrows : (i : ℕ) → i < o.borrows_count → PricedBorrow reserves remaining i o'

  refreshed :
      (clock : Clock) (o : Obligation)
      → Ensures (Refreshed clock o) (refresh reserves remaining clock o)
  unfolding refresh update is_slot_stale
  refreshed clock o =
      step (for_range (refresh_borrow reserves remaining) (o.borrows_count) 0 o) λ o1 h.
        step (for_range (refresh_deposit reserves remaining) (o1.deposits_count) 0 o1) λ o2 k.
          let (borrows, count) =
            (for_range-keeps (SameRest o1) (refresh_deposit reserves remaining)
                (refresh_deposit-frame o1) (o1.deposits_count) 0 o1 (refl, refl)).holds
              o2 k in
          returns (record {
            fresh = ground arith;
            deposits = λ i lt.
                let all =
                  (for_range-all (PricedDeposit reserves remaining)
                      (refresh_deposit reserves remaining) (refresh_deposit-done reserves remaining)
                      (refresh_deposit-kept reserves remaining) (o1.deposits_count) 0 o1 i
                      (omega arith) (omega (arith, count))).holds
                    o2 k in
                record { worth = all.worth };
            borrows = λ i lt.
                let all =
                  (for_range-all (PricedBorrow reserves remaining)
                      (refresh_borrow reserves remaining) (refresh_borrow-done reserves remaining)
                      (refresh_borrow-kept reserves remaining) (o.borrows_count) 0 o i (omega arith)
                      (omega arith)).holds
                    o1 h in
                record {
                  worth = λ b f e. all.worth b f (ap (λ x. get_elem? x i) (sym borrows) ∙ e);
                };
          })

  -- A refresh that succeeds leaves an obligation that is not stale in the slot of the chain; and
  -- in each of its slots that the counters reach, where it is active and its reserve is among the
  -- accounts given and has a price, the value is the one at that price: of collateral the
  -- underlying tokens of the cTokens, times price and threshold in percent, of a debt, which has
  -- the reserve's index, its whole token units times the price.
  pub refresh-Refreshed :
      (clock : Clock) (o o' : Obligation)
      → refresh reserves remaining clock o ≡ ok o'
      → Refreshed clock o o'
  refresh-Refreshed clock o o' h = (refreshed clock o).holds o' h
