-- ===== src/Runtime.antt =====
-- What the program calls and does not implement: the derivation of program addresses, the SPL
-- token program behind `token_interface`, and the accounts of the chain. `T` is the state of the
-- token program. A signature by a program address is by the market's own seeds, which the
-- account checks have verified, so a call names its authority alone.

use Prim.Native.String.{String}
use veil_vault.Base.{
  ℕ, Bool, false, Option, none, some, List, [], ◌∷◌, Constraint, Result, constrain, ◌==◌,
  if◌then◌else◌,
}
use veil_vault.Int.{ℤ}
use veil_vault.Constants.{Pubkey}
use veil_vault.Market.{LendingMarket}
use veil_vault.Reserve.{Reserve}
use veil_vault.Obligation.{Obligation}

pub record Clock : Type 0 where
  pub slot : ℕ
  pub unix_timestamp : ℤ

pub data Seed : Type 0 where
  text : String → Seed
  key : Pubkey → Seed

-- `none` is a failure: no such address, not an account of that kind, or a refused call.
pub record Runtime (T : Type 0) : Type 0 where
  -- the canonical address and bump of some seeds
  pub find_program_address : List Seed → Pubkey × ℕ
  pub create_program_address : List Seed → ℕ → Option Pubkey
  pub token_mint : T → Pubkey → Option Pubkey
  pub token_owner : T → Pubkey → Option Pubkey
  pub mint_decimals : T → Pubkey → Option ℕ
  pub transfer_checked : (from mint to authority : Pubkey) → (amount decimals : ℕ) → T → Option T
  pub mint_to : (mint to authority : Pubkey) → (amount : ℕ) → T → Option T
  pub burn : (mint from authority : Pubkey) → (amount : ℕ) → T → Option T
  -- the creation of a token account and of a mint at a new address
  pub init_token_account : (account mint authority : Pubkey) → T → Option T
  pub init_mint : (mint authority : Pubkey) → (decimals : ℕ) → T → Option T

-- The accounts of the program, by address, and the token program's state.
pub record World (T : Type 0) : Type 0 where
  pub markets : Pubkey → Option LendingMarket
  pub reserves : Pubkey → Option Reserve
  pub obligations : Pubkey → Option Obligation
  pub tokens : T

abbrev pub stored {ℓ} : {A : Type ℓ} → (Pubkey → Option A) → Pubkey → A → Pubkey → Option A
stored f k a j = if j == k then some a else f j

abbrev pub is_key : Option Pubkey → Pubkey → Bool
is_key none k = false
is_key (some j) k = j == k

abbrev pub reserve_seeds : Pubkey → Pubkey → List Seed
reserve_seeds market mint = text "reserve" ∷ key market ∷ key mint ∷ []

abbrev pub obligation_seeds : Pubkey → Pubkey → List Seed
obligation_seeds market user = text "obligation" ∷ key market ∷ key user ∷ []

module _ {T : Type 0} where
  abbrev pub put_market : Pubkey → LendingMarket → World T → World T
  put_market k m w = record w { markets = stored w.markets k m }

  abbrev pub put_reserve : Pubkey → Reserve → World T → World T
  put_reserve k r w = record w { reserves = stored w.reserves k r }

  abbrev pub put_obligation : Pubkey → Obligation → World T → World T
  put_obligation k o w = record w { obligations = stored w.obligations k o }

  abbrev pub put_tokens : T → World T → World T
  put_tokens t w = record w { tokens = t }

module _ {T : Type 0} (rt : Runtime T) where
  open rt use {find_program_address, create_program_address, token_mint, token_owner}

  -- `seeds = [...], bump`
  abbrev pub check_seeds : List Seed → Pubkey → Result (Unit {0})
  check_seeds seeds k = constrain ((find_program_address seeds).0 == k) Constraint.constraint_seeds

  -- `seeds = [b"lending_market", owner], bump = lending_market.bump`
  abbrev pub check_market_seeds : Pubkey → LendingMarket → Pubkey → Result (Unit {0})
  check_market_seeds owner m k =
      constrain (is_key (create_program_address (text "lending_market" ∷ key owner ∷ []) m.bump) k)
        Constraint.constraint_seeds

  abbrev pub check_token_mint : T → Pubkey → Pubkey → Result (Unit {0})
  check_token_mint t account mint =
      constrain (is_key (token_mint t account) mint) Constraint.constraint_token_mint

  abbrev pub check_token_owner : T → Pubkey → Pubkey → Result (Unit {0})
  check_token_owner t account owner =
      constrain (is_key (token_owner t account) owner) Constraint.constraint_token_owner

  abbrev pub vault_of : Pubkey → Pubkey
  vault_of reserve = (find_program_address (text "liquidity_vault" ∷ key reserve ∷ [])).0
