-- ===== src/Obligation.antt =====
-- programs/veilvault/src/state/obligation.rs: what a user has locked and borrowed, in two arrays
-- of eight slots. A slot whose reserve is the zero key is empty. Padding is not modelled.
pub mod Keys
pub mod Valid
pub mod Slots
pub mod Deposits
pub mod Borrows
pub mod Interest
pub mod Accrual
pub mod Health
pub mod Hidden
use veil_vault.Base.{
  ℕ, ◌+◌, ◌*◌, Bool, true, not, Option, none, some, List, LendingError, Error, Result, ok, err,
  require, ok_or, or_panic, ◌>>=◌, ◌>>◌, ltb, leb, ◌==◌, if◌then◌else◌, checked_add, checked_sub,
  checked_mul, checked_div, saturating_add, saturating_sub, position, get_elem?, set, length, take,
  replicate,
}
use veil_vault.Constants.{Pubkey, default_key, rate_scale, max_deposits_count, max_borrow_count}
use veil_vault.LastUpdate.{LastUpdate, last_update_default}
use Slots.{active_values, prefix}

pub record ObligationCollateral : Type 0 where
  pub deposit_reserve : Pubkey
  pub deposited_amount : ℕ
  pub market_value_sf : ℕ

pub record ObligationLiquidity : Type 0 where
  pub borrow_reserve : Pubkey
  pub borrowed_amount_sf : ℕ
  pub cumulative_borrow_rate_sf : ℕ
  pub market_value_sf : ℕ

abbrev pub collateral_default : ObligationCollateral
collateral_default = record {
  deposit_reserve = default_key;
  deposited_amount = 0;
  market_value_sf = 0;
}

abbrev pub liquidity_default : ObligationLiquidity
liquidity_default = record {
  borrow_reserve = default_key;
  borrowed_amount_sf = 0;
  cumulative_borrow_rate_sf = rate_scale;
  market_value_sf = 0;
}

abbrev pub collateral_init : Pubkey → ObligationCollateral
collateral_init deposit_reserve = record collateral_default { deposit_reserve = deposit_reserve }

abbrev pub liquidity_init : Pubkey → ℕ → ObligationLiquidity
liquidity_init borrow_reserve cumulative_borrow_rate_sf = record liquidity_default {
  borrow_reserve = borrow_reserve;
  cumulative_borrow_rate_sf = cumulative_borrow_rate_sf;
}

abbrev pub deposit_is_active : ObligationCollateral → Bool
deposit_is_active d = not (d.deposit_reserve == default_key)

abbrev pub borrow_is_active : ObligationLiquidity → Bool
borrow_is_active b = not (b.borrow_reserve == default_key)

pub record Obligation : Type 0 where
  pub lending_market : Pubkey
  pub owner : Pubkey
  pub last_update : LastUpdate
  pub deposits : List ObligationCollateral
  pub borrows : List ObligationLiquidity
  pub deposits_count : ℕ
  pub borrows_count : ℕ
  pub bump : ℕ

pub record InitObligationParams : Type 0 where
  pub bump : ℕ
  pub owner : Pubkey
  pub lending_market : Pubkey

abbrev pub obligation_default : Obligation
obligation_default = record {
  lending_market = default_key;
  owner = default_key;
  last_update = last_update_default;
  deposits = replicate max_deposits_count collateral_default;
  borrows = replicate max_borrow_count liquidity_default;
  deposits_count = 0;
  borrows_count = 0;
  bump = 0;
}

unfoldable pub init : InitObligationParams → Obligation → Obligation
init p o = record obligation_default {
  bump = p.bump;
  owner = p.owner;
  lending_market = p.lending_market;
}

-- A slot of the reserve, else an empty one.
unfoldable pub find_or_add_deposit : Pubkey → Obligation → Result ℕ
find_or_add_deposit reserve o = elim (position (λ c. c.deposit_reserve == reserve) o.deposits) [
  | some slot ↦ ok slot
  | none ↦ elim (position (λ c. not (deposit_is_active c)) o.deposits) [
    | some slot ↦ ok slot
    | none ↦ err (Error.lending LendingError.obligation_deposits_full)
  ]
]

unfoldable pub find_or_add_borrow : Pubkey → Obligation → Result ℕ
find_or_add_borrow reserve o = elim (position (λ c. c.borrow_reserve == reserve) o.borrows) [
  | some slot ↦ ok slot
  | none ↦ elim (position (λ c. not (borrow_is_active c)) o.borrows) [
    | some slot ↦ ok slot
    | none ↦ err (Error.lending LendingError.obligation_borrows_full)
  ]
]

unfoldable pub find_deposit : Pubkey → Obligation → Result ℕ
find_deposit reserve o =
    ok_or (position (λ c. c.deposit_reserve == reserve) o.deposits) LendingError.deposit_not_found

unfoldable pub find_borrow : Pubkey → Obligation → Result ℕ
find_borrow reserve o =
    ok_or (position (λ c. c.borrow_reserve == reserve) o.borrows) LendingError.borrow_not_found

unfoldable pub active_deposits : Obligation → ℕ
active_deposits o = o.deposits_count

unfoldable pub active_borrow : Obligation → ℕ
active_borrow o = o.borrows_count

unfoldable pub deposit : Pubkey → ℕ → Obligation → Result Obligation
deposit reserve amount o = do
  require (ltb 0 amount) LendingError.invalid_amount
  slot ← find_or_add_deposit reserve o
  old ← or_panic (get_elem? o.deposits slot)
  let fresh = not (deposit_is_active old)
  let d = if fresh then collateral_init reserve else old
  let count = if fresh then saturating_add 8 o.deposits_count 1 else o.deposits_count
  total ← ok_or (checked_add 64 (d.deposited_amount) amount) LendingError.math_overflow
  ok (record o {
    deposits = set o.deposits slot (record d { deposited_amount = total });
    deposits_count = count;
  })

unfoldable pub withdraw : Pubkey → ℕ → Obligation → Result Obligation
withdraw reserve amount o = do
  require (ltb 0 amount) LendingError.invalid_amount
  slot ← find_deposit reserve o
  d ← or_panic (get_elem? o.deposits slot)
  require (leb amount d.deposited_amount) LendingError.insufficient_collateral
  left ← ok_or (checked_sub d.deposited_amount amount) LendingError.math_overflow
  ok (
      if left == 0
      then record o {
        deposits = set o.deposits slot collateral_default;
        deposits_count = saturating_sub o.deposits_count 1;
      }
      else record o { deposits = set o.deposits slot (record d { deposited_amount = left }) })

-- The amount is in whole token units; the slot holds it scaled by `rate_scale`.
unfoldable pub borrow : Pubkey → ℕ → ℕ → Obligation → Result Obligation
borrow reserve amount cumulative_borrow_rate_sf o = do
  require (ltb 0 amount) LendingError.invalid_amount
  slot ← find_or_add_borrow reserve o
  old ← or_panic (get_elem? o.borrows slot)
  let fresh = not (borrow_is_active old)
  let b = if fresh then liquidity_init reserve cumulative_borrow_rate_sf else old
  let count = if fresh then saturating_add 8 o.borrows_count 1 else o.borrows_count
  amount_sf ← ok_or (checked_mul 128 amount rate_scale) LendingError.math_overflow
  total ← ok_or (checked_add 128 (b.borrowed_amount_sf) amount_sf) LendingError.math_overflow
  ok (record o {
    borrows = set o.borrows slot (record b { borrowed_amount_sf = total });
    borrows_count = count;
  })

-- A rest of less than one token unit is forgiven.
unfoldable pub repay : Pubkey → ℕ → Obligation → Result Obligation
repay reserve amount o = do
  require (ltb 0 amount) LendingError.invalid_amount
  slot ← find_borrow reserve o
  amount_sf ← ok_or (checked_mul 128 amount rate_scale) LendingError.math_overflow
  b ← or_panic (get_elem? o.borrows slot)
  require (leb amount_sf b.borrowed_amount_sf) LendingError.invalid_amount
  left ← ok_or (checked_sub b.borrowed_amount_sf amount_sf) LendingError.math_overflow
  ok (
      if ltb left rate_scale
      then record o {
        borrows = set o.borrows slot liquidity_default;
        borrows_count = saturating_sub o.borrows_count 1;
      }
      else record o { borrows = set o.borrows slot (record b { borrowed_amount_sf = left }) })

-- The debt of one active slot, brought up to the reserve's index.
unfoldable pub accrue_slot : ℕ → ObligationLiquidity → Result ObligationLiquidity
accrue_slot current_cumulative_rate_sf b = if not (borrow_is_active b) then ok b else (do
  require (leb b.cumulative_borrow_rate_sf current_cumulative_rate_sf)
      LendingError.borrow_rate_decreased
  if current_cumulative_rate_sf == b.cumulative_borrow_rate_sf then ok b else (do
    scaled ←
        ok_or (checked_mul 128 b.borrowed_amount_sf current_cumulative_rate_sf)
          LendingError.math_overflow
    debt ← ok_or (checked_div scaled b.cumulative_borrow_rate_sf) LendingError.math_overflow
    ok (record b {
      borrowed_amount_sf = debt;
      cumulative_borrow_rate_sf = current_cumulative_rate_sf;
    })))

unfoldable pub accrue_interest : ℕ → ℕ → Obligation → Result Obligation
accrue_interest slot_index current_cumulative_rate_sf o = do
  b ← or_panic (get_elem? o.borrows slot_index)
  b' ← accrue_slot current_cumulative_rate_sf b
  ok (record o { borrows = set o.borrows slot_index b' })

abbrev pub deposit_value : ObligationCollateral → Option ℕ
deposit_value d = if deposit_is_active d then some d.market_value_sf else none

abbrev pub borrow_value : ObligationLiquidity → Option ℕ
borrow_value b = if borrow_is_active b then some b.market_value_sf else none

-- The slices `[..count]` panic past the end. `none` is "no borrows".
unfoldable pub health_factor : Obligation → Result (Option ℕ)
health_factor o = do
  borrows ← prefix o.borrows_count o.borrows
  let total = active_values borrow_value borrows
  if total == 0 then ok none else (do
    deposits ← prefix o.deposits_count o.deposits
    ok (checked_div (active_values deposit_value deposits) total))

-- The code compares the quotient, which is a plain number, with `rate_scale`.
unfoldable pub is_healthy : Obligation → Result Bool
is_healthy o = do hf ← health_factor o; ok (elim hf [ none ↦ true | some f ↦ leb rate_scale f ])
