-- ===== src/Base/Errors.antt =====
-- Anchor's `Result`, the program's error codes and the other ways in which an instruction aborts.
-- Whatever the way, the runtime rolls every account back, so an error carries no state.
use mathlib.Core.Path.{◌≡◌, refl}
use mathlib.Core.Logic.{◌⊎◌, inl, inr}
use mathlib.Core.Bool.{Bool, true, false}
use mathlib.Core.Option.{Option, none, some}

pub data LendingError : Type 0 where
  math_overflow invalid_version invalid_fee insufficient_liquidity : LendingError
  borrow_rate_zero_found zero_slots_elapsed invalid_config : LendingError
  deposit_limit_exceeded borrow_limit_exceeded insufficient_collateral : LendingError
  obligation_deposits_full obligation_borrows_full deposit_not_found : LendingError
  borrow_not_found borrow_rate_decreased invalid_amount price_stale : LendingError
  price_not_valid price_confidence_too_wide unhealthy_obligation : LendingError
  obligation_stale obligation_healthy aborted_computation cluster_not_set : LendingError
  private_obligation_not_initialized already_initialized : LendingError

-- Account checks that Anchor makes before a handler runs.
pub data Constraint : Type 0 where
  account_missing account_in_use constraint_seeds constraint_has_one : Constraint
  constraint_token_mint constraint_token_owner constraint_address constraint_callback : Constraint

pub data Error : Type 0 where
  lending : LendingError → Error
  anchor : Constraint → Error
  -- an arithmetic overflow under `overflow-checks`, or an index out of range
  panicked : Error
  -- a cross-program call that failed
  cpi_failed : Error

pub data Result {ℓ} (A : Type ℓ) : Type ℓ where
  err : Error → Result A
  ok : A → Result A

-- `r?` and the rest of the function
infixl 5 ◌>>◌ ◌>>=◌
abbrev pub ◌>>=◌ {ℓ κ} : {A : Type ℓ} {B : Type κ} → Result A → (A → Result B) → Result B
err e >>= next = err e
ok a >>= next = next a

abbrev pub ◌>>◌ {ℓ} : {B : Type ℓ} → Result (Unit {0}) → Result B → Result B
first >> next = first >>= λ u. next

-- `require!(test, LendingError::e)`
abbrev pub require : Bool → LendingError → Result (Unit {0})
require true e = ok tt
require false e = err (lending e)

-- an account constraint with no error code of its own
abbrev pub constrain : Bool → Constraint → Result (Unit {0})
constrain true c = ok tt
constrain false c = err (anchor c)

module _ {ℓ} {A : Type ℓ} where
  -- `o.ok_or(LendingError::e)?`
  abbrev pub ok_or : Option A → LendingError → Result A
  ok_or none e = err (lending e)
  ok_or (some a) e = ok a

  -- an unchecked operation in a build with `overflow-checks = true`
  abbrev pub or_panic : Option A → Result A
  or_panic none = err panicked
  or_panic (some a) = ok a

  -- `r.unwrap_or(d)`
  abbrev pub unwrap_or : Result A → A → A
  unwrap_or (ok a) d = a
  unwrap_or (err e) d = d

  -- the calls of other programs
  abbrev pub or_failed : Option A → Result A
  or_failed none = err cpi_failed
  or_failed (some a) = ok a

  abbrev pub or_missing : Option A → Result A
  or_missing none = err (anchor Constraint.account_missing)
  or_missing (some a) = ok a

  -- A chain that succeeds: its first step does, and the rest succeeds on its value.
  pub >>=-elim {κ τ} :
      {B : Type κ} {C : Type τ} (m : Result A) (f : A → Result B) {b : B}
      → (m >>= f) ≡ ok b
      → ((a : A) → m ≡ ok a → f a ≡ ok b → C)
      → C
  >>=-elim (ok a) f h k = k a refl h
  >>=-elim (err e) f h k = absurd cc

  pub Result-cases : (r : Result A) → ((e : Error) × (r ≡ err e)) ⊎ ((a : A) × (r ≡ ok a))
  Result-cases (ok a) = inr (a, refl)
  Result-cases (err e) = inl (e, refl)
