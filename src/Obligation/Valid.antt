-- ===== src/Obligation/Valid.antt =====
-- The invariant of an obligation, and its abstract view: two maps from reserves to amounts.
use veil_vault.Base.{ℕ, ◌≡◌, ◌≢◌, refl, none, some, arith, length}
use veil_vault.Constants.{Pubkey}
use veil_vault.Obligation.{
  Obligation, ObligationCollateral, ObligationLiquidity, InitObligationParams, init,
}
use veil_vault.Obligation.Keys.{find, count, Unique}

abbrev pub deposit_key : ObligationCollateral → ℕ
deposit_key d = d.deposit_reserve

abbrev pub borrow_key : ObligationLiquidity → ℕ
borrow_key b = b.borrow_reserve

-- The cTokens locked for a reserve, and the scaled debt to a reserve, 0 where there is no slot.
abbrev pub deposited : Obligation → Pubkey → ℕ
deposited o r = elim (find deposit_key r o.deposits) [ none ↦ 0 | some d ↦ d.deposited_amount ]

-- The market value of the cTokens locked for a reserve, 0 where there is no slot.
abbrev pub valued : Obligation → Pubkey → ℕ
valued o r = elim (find deposit_key r o.deposits) [ none ↦ 0 | some d ↦ d.market_value_sf ]

abbrev pub owed : Obligation → Pubkey → ℕ
owed o r = elim (find borrow_key r o.borrows) [ none ↦ 0 | some b ↦ b.borrowed_amount_sf ]

-- A map from reserves to amounts after an update at one reserve.
abbrev pub Updated : (Pubkey → ℕ) → (Pubkey → ℕ) → Pubkey → ℕ → Type 0
Updated f f' r n = (f' r ≡ n) × ((j : Pubkey) → j ≢ 0 → j ≢ r → f' j ≡ f j)

-- Each reserve has one slot at most on each side, the counters count the active slots, and there
-- are eight slots on each side.
pub record IsValid (o : Obligation) : Type 0 where
  pub unique_deposits : Unique deposit_key o.deposits
  pub unique_borrows : Unique borrow_key o.borrows
  pub deposits_counted : o.deposits_count ≡ count deposit_key o.deposits
  pub borrows_counted : o.borrows_count ≡ count borrow_key o.borrows
  pub deposits_length : length o.deposits ≡ 8
  pub borrows_length : length o.borrows ≡ 8

-- A new obligation is valid, and nothing is locked or owed in it.
pub init-IsValid :
    (p : InitObligationParams) (o : Obligation)
    → IsValid (init p o) × ((r : Pubkey) → (deposited (init p o) r ≡ 0) × (owed (init p o) r ≡ 0))
unfolding init
init-IsValid p o = (
  record {
    unique_deposits = ground arith;
    unique_borrows = ground arith;
    deposits_counted = refl;
    borrows_counted = refl;
    deposits_length = refl;
    borrows_length = refl;
  },
  λ r. (ground arith, ground arith),
)
