-- ===== src/Instructions/RefreshObligation.antt =====
-- programs/veilvault/src/instructions/refresh_obligation.rs: every active slot gets its value in
-- USD from its reserve. Each loop runs over as many slots as its counter says, from the first.
pub mod Loops
pub mod Pricing
pub mod Debts
pub mod Refreshed
use veil_vault.Base.{
  ℕ, zero, suc, ◌/◌, Bool, not, Option, List, [], ◌∷◌, Constraint, LendingError, Result, ok,
  require, constrain, ok_or, or_panic, or_missing, ◌>>=◌, ◌>>◌, ◌==◌, ◌||◌, if◌then◌else◌, false,
  checked_mul, checked_div, ◌and_then◌, get_elem?, set,
}
use veil_vault.Constants.{Pubkey, rate_scale}
use veil_vault.LastUpdate.{update}
use veil_vault.Reserve.{Reserve}
use veil_vault.Reserve.Liquidity.{total_supply}
use veil_vault.Obligation.{
  Obligation, ObligationCollateral, ObligationLiquidity, deposit_is_active, borrow_is_active,
  accrue_interest,
}
use veil_vault.Runtime.{Clock, World, put_obligation}

pub record RefreshObligationAccounts : Type 0 where
  pub lending_market : Pubkey
  pub obligation : Pubkey
  pub remaining_accounts : List Pubkey

-- What is read from a reserve's raw data.
pub record ReserveFields : Type 0 where
  pub price_sf : ℕ
  pub total_liquidity : ℕ
  pub ctoken_supply : ℕ
  pub liq_threshold_pct : ℕ
  pub cumulative_rate_sf : ℕ

-- `none` is an account whose data is too short for a reserve.
unfoldable pub read_reserve_fields : Option Reserve → Result ReserveFields
read_reserve_fields account = do
  r ← ok_or account LendingError.invalid_config
  total ← total_supply r.liquidity
  ok (record {
    price_sf = r.liquidity.market_price_sf;
    total_liquidity = total;
    ctoken_supply = r.collateral.mint_total_supply;
    liq_threshold_pct = r.config.liquidation_threshold_pct;
    cumulative_rate_sf = r.liquidity.cumulative_borrow_rate_sf;
  })

-- `remaining_accounts.iter().find(|a| a.key() == k)`
unfoldable pub is_listed : Pubkey → List Pubkey → Bool
is_listed k [] = false
is_listed k (a ∷ as') = a == k || is_listed k as'

-- The fields of a reserve that must be among the accounts given.
unfoldable pub listed_fields :
    (Pubkey → Option Reserve) → List Pubkey → Pubkey → LendingError → Result ReserveFields
unfolding read_reserve_fields is_listed
listed_fields reserves remaining k e = do
  require (is_listed k remaining) e
  read_reserve_fields (reserves k)

-- `for i in start..start + rounds`
unfoldable pub for_range {ℓ} : {S : Type ℓ} → (ℕ → S → Result S) → (rounds i : ℕ) → S → Result S
for_range step zero i s = ok s
for_range step (suc rounds) i s = do s' ← step i s; for_range step rounds (suc i) s'

-- The value of a debt: whole token units times the price.
unfoldable pub price_borrow : ℕ → ObligationLiquidity → Result ObligationLiquidity
price_borrow price_sf b = do
  value ←
      ok_or (checked_mul 128 (b.borrowed_amount_sf / rate_scale) price_sf)
        LendingError.math_overflow
  ok (record b { market_value_sf = value })

-- The value of locked cTokens: their underlying tokens times the price, times the threshold.
unfoldable pub price_deposit : ReserveFields → ObligationCollateral → Result ObligationCollateral
price_deposit f d = do
  underlying ←
      (if f.ctoken_supply == 0
        then ok 0
        else ok_or
            (checked_mul 128 d.deposited_amount f.total_liquidity and_then λ v.
              checked_div v f.ctoken_supply)
            LendingError.math_overflow)
  value ←
      ok_or
        (checked_mul 128 underlying f.price_sf and_then λ v.
          checked_mul 128 v f.liq_threshold_pct and_then λ v. checked_div v 100)
        LendingError.math_overflow
  ok (record d { market_value_sf = value })

module _ (reserves : Pubkey → Option Reserve) (remaining : List Pubkey) where
  unfoldable pub refresh_borrow : ℕ → Obligation → Result Obligation
  refresh_borrow i o = do
    b ← or_panic (get_elem? o.borrows i)
    if not (borrow_is_active b) then ok o else (do
      f ← listed_fields reserves remaining b.borrow_reserve LendingError.borrow_not_found
      if f.price_sf == 0 then ok o else (do
        accrued ← accrue_interest i f.cumulative_rate_sf o
        b' ← or_panic (get_elem? accrued.borrows i)
        priced ← price_borrow f.price_sf b'
        ok (record accrued { borrows = set accrued.borrows i priced })))

  unfoldable pub refresh_deposit : ℕ → Obligation → Result Obligation
  refresh_deposit i o = do
    d ← or_panic (get_elem? o.deposits i)
    if not (deposit_is_active d) then ok o else (do
      f ← listed_fields reserves remaining d.deposit_reserve LendingError.deposit_not_found
      if f.price_sf == 0 then ok o else (do
        priced ← price_deposit f d
        ok (record o { deposits = set o.deposits i priced })))

  -- The handler on the loaded obligation.
  unfoldable pub refresh : Clock → Obligation → Result Obligation
  refresh clock o = do
    borrows_priced ← for_range refresh_borrow o.borrows_count 0 o
    priced ← for_range refresh_deposit borrows_priced.deposits_count 0 borrows_priced
    ok (record priced { last_update = update clock.slot clock.unix_timestamp priced.last_update })

module _ {T : Type 0} where
  unfoldable pub refresh_obligation : RefreshObligationAccounts → Clock → World T → Result (World T)
  refresh_obligation a clock w = do
    m ← or_missing (w.markets a.lending_market)
    o ← or_missing (w.obligations a.obligation)
    constrain (o.lending_market == a.lending_market) Constraint.constraint_has_one
    o' ← refresh w.reserves a.remaining_accounts clock o
    ok (put_obligation a.obligation o' w)
