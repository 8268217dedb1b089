-- ===== src/Private/Setup.antt =====
-- programs/veilvault/src/instructions/init_private_obligation.rs: the registration of the circuit,
-- the record of a user, and the callback that brings the first encrypted position.
use veil_vault.Base.{
  ℕ, not, true, false, Option, none, some, [], LendingError, Result, ok, require, ok_or, or_failed,
  or_missing, ◌>>=◌, ◌>>◌,
}
use veil_vault.Constants.{Pubkey, default_key}
use veil_vault.Market.{LendingMarket}
use veil_vault.Runtime.{Runtime, check_seeds, check_market_seeds}
use veil_vault.Arcium.{
  Arcium, Encrypted, QueueAccounts, CallbackAccounts, CompDefAccounts, queue_accounts_check,
  callback_accounts_check, comp_def_accounts_check,
}
use veil_vault.Private.{
  PrivateObligation, Chain, private_default, private_seeds, store_encrypted, put_private,
  put_arcium,
}

pub record InitPrivateObligationAccounts : Type 0 where
  pub payer : Pubkey
  pub queue : QueueAccounts
  pub lending_market : Pubkey
  pub private_obligation : Pubkey

pub record CallbackContext : Type 0 where
  pub callback : CallbackAccounts
  pub private_obligation : Pubkey

-- The handler on the record, which `init_if_needed` has created or loaded. Ciphertexts stay.
unfoldable pub reset :
    (bump : ℕ) (payer market : Pubkey) → PrivateObligation → Result PrivateObligation
reset bump payer market po = do
  require (not po.is_initialized) LendingError.already_initialized
  ok (record po {
    bump = bump;
    owner = payer;
    lending_market = market;
    collateral_reserve = default_key;
    borrow_reserve = default_key;
    is_initialized = false;
    is_liquidatable = false;
  })

-- The callback on the record.
unfoldable pub store_initial : Encrypted → PrivateObligation → PrivateObligation
unfolding store_encrypted
store_initial enc po = record (store_encrypted enc po) { is_initialized = true }

-- `init_if_needed`
abbrev pub or_new : Option PrivateObligation → PrivateObligation
or_new none = private_default
or_new (some po) = po

module _ {T Q Out : Type 0} (rt : Runtime T) (ar : Arcium Q Out) where
  unfoldable pub init_position_comp_def : CompDefAccounts → Chain T Q → Result (Chain T Q)
  unfolding comp_def_accounts_check
  init_position_comp_def a c = do
    comp_def_accounts_check ar a c.arcium
    q ← or_failed (
        ar.init_comp_def "init_position_v2"
          (some
            "https://raw.githubusercontent.com/AsthaMishra/veil-vault/main/build/init_position_v2.arcis")
          a c.arcium)
    ok (put_arcium q c)

  unfoldable pub init_private_obligation_check :
      InitPrivateObligationAccounts → ℕ → LendingMarket → Q → Result (Unit {0})
  unfolding queue_accounts_check
  init_private_obligation_check a computation_offset m q = do
    queue_accounts_check ar "init_position_v2" computation_offset a.queue q
    check_market_seeds rt m.owner m a.lending_market
    check_seeds rt (private_seeds a.lending_market a.payer) a.private_obligation

  unfoldable pub init_private_obligation :
      InitPrivateObligationAccounts → ℕ → Chain T Q → Result (Chain T Q)
  init_private_obligation a computation_offset c = do
    m ← or_missing (c.world.markets a.lending_market)
    init_private_obligation_check a computation_offset m c.arcium
    po ←
        reset (rt.find_program_address (private_seeds a.lending_market a.payer)).1 a.payer
          a.lending_market (or_new (c.private_obligations a.private_obligation))
    q ← or_failed (
        ar.queue_computation
          (record {
            offset = computation_offset;
            circuit = "init_position_v2";
            args = [];
            callback_account = a.private_obligation;
          })
          c.arcium)
    ok (put_arcium q (record (put_private a.private_obligation po c) { sign_bump = ar.sign_pda.1 }))

  unfoldable pub init_position_v2_callback : CallbackContext → Out → Chain T Q → Result (Chain T Q)
  unfolding callback_accounts_check
  init_position_v2_callback a output c = do
    callback_accounts_check ar "init_position_v2" a.callback c.arcium
    po ← or_missing (c.private_obligations a.private_obligation)
    enc ←
        ok_or
          (ar.verify_encrypted a.callback.cluster_account a.callback.computation_account c.arcium
            output)
          LendingError.aborted_computation
    ok (put_private a.private_obligation (store_initial enc po) c)
