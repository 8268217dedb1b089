-- ===== src/Private.antt =====
-- programs/veilvault/src/state/private_obligation.rs: the public record of a confidential
-- position, and the chain with such records.
pub mod Setup
pub mod DepositCollateral
pub mod Borrow
pub mod Check
pub mod Liquidate
pub mod Traces
pub mod Gates
use veil_vault.Base.{
  ℕ, Bool, false, Option, none, List, [], ◌∷◌, Result, or_missing, Constraint, constrain,
  LendingError, require, ◌>>=◌, ◌>>◌,
}
use veil_vault.Constants.{Pubkey, default_key}
use veil_vault.Runtime.{Runtime, Seed, World, text, key, stored, is_key}
use veil_vault.Arcium.{Encrypted}

pub record PrivateObligation : Type 0 where
  pub bump : ℕ
  pub enc_state : ℕ × ℕ
  pub nonce : ℕ
  pub owner : Pubkey
  pub lending_market : Pubkey
  pub collateral_reserve : Pubkey
  pub borrow_reserve : Pubkey
  pub is_liquidatable : Bool
  pub is_initialized : Bool

-- A new account is zeroed.
abbrev pub private_default : PrivateObligation
private_default = record {
  bump = 0;
  enc_state = (0, 0);
  nonce = 0;
  owner = default_key;
  lending_market = default_key;
  collateral_reserve = default_key;
  borrow_reserve = default_key;
  is_liquidatable = false;
  is_initialized = false;
}

pub record LiquidatableEvent : Type 0 where
  pub private_obligation : Pubkey
  pub owner : Pubkey

-- The accounts and tokens of the public instructions, the private obligations, the bump stored in
-- the account that signs for computations, Arcium's state, and the events emitted, newest first.
pub record Chain (T Q : Type 0) : Type 0 where
  pub world : World T
  pub private_obligations : Pubkey → Option PrivateObligation
  pub sign_bump : ℕ
  pub arcium : Q
  pub events : List LiquidatableEvent

abbrev pub private_seeds : Pubkey → Pubkey → List Seed
private_seeds market user = text "private_obligation" ∷ key market ∷ key user ∷ []

-- The two writes by which a callback stores an encrypted position.
unfoldable pub store_encrypted : Encrypted → PrivateObligation → PrivateObligation
store_encrypted enc po = record po { enc_state = enc.ciphertexts; nonce = enc.nonce }

module _ {T Q : Type 0} where
  abbrev pub put_private : Pubkey → PrivateObligation → Chain T Q → Chain T Q
  put_private k po c = record c { private_obligations = stored c.private_obligations k po }

  abbrev pub put_world : World T → Chain T Q → Chain T Q
  put_world w c = record c { world = w }

  abbrev pub put_arcium : Q → Chain T Q → Chain T Q
  put_arcium q c = record c { arcium = q }

module _ {T : Type 0} (rt : Runtime T) where
  -- `seeds = [b"private_obligation", market, user], bump = private_obligation.bump`
  abbrev pub check_private_seeds : Pubkey → Pubkey → PrivateObligation → Pubkey → Result (Unit {0})
  check_private_seeds market user po k =
      constrain (is_key (rt.create_program_address (private_seeds market user) po.bump) k)
        Constraint.constraint_seeds
