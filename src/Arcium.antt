-- ===== src/Arcium.antt =====
-- What the private instructions use of the Arcium crates (arcium-anchor, arcium-client): the
-- derivation of its accounts, the queue of computations, the check that a callback comes from the
-- cluster, and the verification of a computation's output. All of it is a parameter.
use Prim.Native.String.{String}
use veil_vault.Base.{
  ℕ, Bool, Option, List, Constraint, LendingError, Result, constrain, ok_or, ◌>>=◌, ◌>>◌, ◌==◌,
}
use veil_vault.Constants.{Pubkey}

-- `enc.ciphertexts` and `enc.nonce` of an output; a 32-byte ciphertext is a number.
pub record Encrypted : Type 0 where
  pub ciphertexts : ℕ × ℕ
  pub nonce : ℕ

-- The calls of `ArgBuilder`, in their order.
pub data Arg : Type 0 where
  x25519_pubkey : ℕ → Arg
  plaintext_u64 : ℕ → Arg
  plaintext_u128 : ℕ → Arg
  encrypted_u64 : ℕ → Arg
  account : (k : Pubkey) (offset length : ℕ) → Arg

-- A call of `queue_computation`, with the circuit whose callback is asked for and the one account
-- that the callback gets.
pub record Computation : Type 0 where
  pub offset : ℕ
  pub circuit : String
  pub args : List Arg
  pub callback_account : Pubkey

-- The accounts that `#[queue_computation_accounts]` asks for.
pub record QueueAccounts : Type 0 where
  pub sign_pda_account : Pubkey
  pub mxe_account : Pubkey
  pub mempool_account : Pubkey
  pub executing_pool : Pubkey
  pub computation_account : Pubkey
  pub comp_def_account : Pubkey
  pub cluster_account : Pubkey
  pub pool_account : Pubkey
  pub clock_account : Pubkey

-- Those of `#[callback_accounts]`.
pub record CallbackAccounts : Type 0 where
  pub comp_def_account : Pubkey
  pub mxe_account : Pubkey
  pub computation_account : Pubkey
  pub cluster_account : Pubkey
  pub instructions_sysvar : Pubkey

-- Those of `#[init_computation_definition_accounts]`.
pub record CompDefAccounts : Type 0 where
  pub payer : Pubkey
  pub mxe_account : Pubkey
  pub comp_def_account : Pubkey
  pub address_lookup_table : Pubkey
  pub lut_program : Pubkey

-- `Q` is the state of the Arcium program and `Out` is `SignedComputationOutputs`. A derivation
-- that needs the cluster is `none` where the MXE account has none.
pub record Arcium (Q Out : Type 0) : Type 0 where
  pub comp_def_offset : String → ℕ
  pub comp_def_pda : ℕ → Pubkey
  -- the address and the bump
  pub sign_pda : Pubkey × ℕ
  pub mxe_pda : Pubkey
  pub mempool_pda : Q → Option Pubkey
  pub executing_pool_pda : Q → Option Pubkey
  pub computation_pda : ℕ → Q → Option Pubkey
  pub cluster_pda : Q → Option Pubkey
  pub fee_pool_address : Pubkey
  pub clock_address : Pubkey
  pub lut_pda : Q → Pubkey
  pub lut_program_id : Pubkey
  pub instructions_id : Pubkey
  pub queue_computation : Computation → Q → Option Q
  -- the circuit and the address of its code, where it is kept off the chain
  pub init_comp_def : String → Option String → CompDefAccounts → Q → Option Q
  -- the checks of `#[arcium_callback]` for a circuit
  pub validate_callback : String → CallbackAccounts → Q → Bool
  pub verify_encrypted : (cluster computation : Pubkey) → Q → Out → Option Encrypted
  pub verify_bool : (cluster computation : Pubkey) → Q → Out → Option Bool

-- `address = k`
abbrev pub check_address : Pubkey → Pubkey → Result (Unit {0})
check_address k a = constrain (a == k) Constraint.constraint_address

module _ {Q Out : Type 0} (ar : Arcium Q Out) where
  unfoldable pub queue_accounts_check : String → ℕ → QueueAccounts → Q → Result (Unit {0})
  queue_accounts_check circuit offset a q = do
    check_address ar.sign_pda.0 a.sign_pda_account
    check_address ar.mxe_pda a.mxe_account
    mempool ← ok_or (ar.mempool_pda q) LendingError.cluster_not_set
    check_address mempool a.mempool_account
    pool ← ok_or (ar.executing_pool_pda q) LendingError.cluster_not_set
    check_address pool a.executing_pool
    computation ← ok_or (ar.computation_pda offset q) LendingError.cluster_not_set
    check_address computation a.computation_account
    check_address (ar.comp_def_pda (ar.comp_def_offset circuit)) a.comp_def_account
    cluster ← ok_or (ar.cluster_pda q) LendingError.cluster_not_set
    check_address cluster a.cluster_account
    check_address ar.fee_pool_address a.pool_account
    check_address ar.clock_address a.clock_account

  unfoldable pub callback_accounts_check : String → CallbackAccounts → Q → Result (Unit {0})
  callback_accounts_check circuit a q = do
    check_address (ar.comp_def_pda (ar.comp_def_offset circuit)) a.comp_def_account
    check_address ar.mxe_pda a.mxe_account
    cluster ← ok_or (ar.cluster_pda q) LendingError.cluster_not_set
    check_address cluster a.cluster_account
    check_address ar.instructions_id a.instructions_sysvar
    constrain (ar.validate_callback circuit a q) Constraint.constraint_callback

  unfoldable pub comp_def_accounts_check : CompDefAccounts → Q → Result (Unit {0})
  comp_def_accounts_check a q = do
    check_address ar.mxe_pda a.mxe_account
    check_address (ar.lut_pda q) a.address_lookup_table
    check_address ar.lut_program_id a.lut_program
