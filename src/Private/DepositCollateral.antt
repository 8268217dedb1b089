-- ===== src/Private/DepositCollateral.antt =====
-- programs/veilvault/src/instructions/private_deposit_collateral.rs: cTokens locked in the public
-- obligation, with a computation queued that adds them to the encrypted position.
use veil_vault.Base.{
  ℕ, ◌+◌, not, some, List, [], ◌∷◌, LendingError, Result, ok, require, ok_or, or_failed, or_missing,
  ◌>>=◌, ◌>>◌, ltb, ◌==◌, if◌then◌else◌,
}
use veil_vault.Constants.{Pubkey, default_key}
use veil_vault.Market.{LendingMarket, is_paused}
use veil_vault.Reserve.Config.{is_active}
use veil_vault.Obligation
use veil_vault.Runtime.{
  Runtime, text, key, put_obligation, put_tokens, check_seeds, check_market_seeds, check_token_mint,
  check_token_owner, reserve_seeds, obligation_seeds,
}
use veil_vault.Arcium.{
  Arcium, Arg, QueueAccounts, CompDefAccounts, queue_accounts_check, callback_accounts_check,
  comp_def_accounts_check,
}
use veil_vault.Private.{
  PrivateObligation, Chain, store_encrypted, put_private, put_world, put_arcium,
  check_private_seeds,
}
use veil_vault.Private.Setup.{CallbackContext}

pub record PrivateDepositCollateralAccounts : Type 0 where
  pub depositor : Pubkey
  pub queue : QueueAccounts
  pub lending_market : Pubkey
  pub reserve : Pubkey
  pub reserve_mint : Pubkey
  pub collateral_mint : Pubkey
  pub user_collateral_account : Pubkey
  pub collateral_supply_vault : Pubkey
  pub obligation : Pubkey
  pub private_obligation : Pubkey

-- What a client encrypts: the amount, under its key and nonce.
pub record EncryptedAmount : Type 0 where
  pub encrypted_amount : ℕ
  pub encryption_pubkey : ℕ
  pub encryption_nonce : ℕ

-- The arguments of both circuits that add an amount to a position: the ciphertexts are read from
-- the record at offset 9, after the discriminator and the bump.
unfoldable pub add_args : EncryptedAmount → PrivateObligation → Pubkey → List Arg
add_args e po k =
    Arg.x25519_pubkey e.encryption_pubkey
    ∷ Arg.plaintext_u128 e.encryption_nonce
    ∷ Arg.encrypted_u64 e.encrypted_amount
    ∷ Arg.plaintext_u128 po.nonce
    ∷ Arg.account k (8 + 1) 64
    ∷ []

-- The collateral's reserve is recorded once.
unfoldable pub note_collateral_reserve : Pubkey → PrivateObligation → PrivateObligation
note_collateral_reserve reserve_key po =
    if po.collateral_reserve == default_key
    then record po { collateral_reserve = reserve_key }
    else po

module _ {T Q Out : Type 0} (rt : Runtime T) (ar : Arcium Q Out) where
  unfoldable pub add_collateral_comp_def : CompDefAccounts → Chain T Q → Result (Chain T Q)
  unfolding comp_def_accounts_check
  add_collateral_comp_def a c = do
    comp_def_accounts_check ar a c.arcium
    q ← or_failed (
        ar.init_comp_def "add_collateral_v2"
          (some
            "https://raw.githubusercontent.com/AsthaMishra/veil-vault/main/build/add_collateral_v2.arcis")
          a c.arcium)
    ok (put_arcium q c)

  unfoldable pub private_deposit_collateral_check :
      PrivateDepositCollateralAccounts
      → ℕ
      → LendingMarket
      → PrivateObligation
      → T
      → Q
      → Result (Unit {0})
  unfolding queue_accounts_check
  private_deposit_collateral_check a computation_offset m po t q = do
    queue_accounts_check ar "add_collateral_v2" computation_offset a.queue q
    check_market_seeds rt m.owner m a.lending_market
    check_seeds rt (reserve_seeds a.lending_market a.reserve_mint) a.reserve
    check_seeds rt (text "collateral_mint" ∷ key a.reserve ∷ []) a.collateral_mint
    check_token_mint rt t a.user_collateral_account a.collateral_mint
    check_token_owner rt t a.user_collateral_account a.depositor
    check_seeds rt (text "collateral_supply" ∷ key a.reserve ∷ []) a.collateral_supply_vault
    check_seeds rt (obligation_seeds a.lending_market a.depositor) a.obligation
    check_private_seeds rt a.lending_market a.depositor po a.private_obligation
    require (po.owner == a.depositor) LendingError.invalid_config

  unfoldable pub private_deposit_collateral :
      PrivateDepositCollateralAccounts
      → (computation_offset collateral_amount : ℕ) → EncryptedAmount
      → Chain T Q
      → Result (Chain T Q)
  private_deposit_collateral a computation_offset collateral_amount e c = do
    m ← or_missing (c.world.markets a.lending_market)
    r ← or_missing (c.world.reserves a.reserve)
    decimals ← or_missing (rt.mint_decimals c.world.tokens a.collateral_mint)
    o ← or_missing (c.world.obligations a.obligation)
    po ← or_missing (c.private_obligations a.private_obligation)
    private_deposit_collateral_check a computation_offset m po c.world.tokens c.arcium
    require (ltb 0 collateral_amount) LendingError.invalid_amount
    require po.is_initialized LendingError.private_obligation_not_initialized
    require (not (is_paused m)) LendingError.invalid_config
    require (is_active r.config) LendingError.invalid_config
    o' ← Obligation.deposit a.reserve collateral_amount o
    t ← or_failed (
        rt.transfer_checked a.user_collateral_account a.collateral_mint a.collateral_supply_vault
          a.depositor collateral_amount decimals c.world.tokens)
    let po' = note_collateral_reserve a.reserve po
    q ← or_failed (
        ar.queue_computation
          (record {
            offset = computation_offset;
            circuit = "add_collateral_v2";
            args = add_args e po' a.private_obligation;
            callback_account = a.private_obligation;
          })
          c.arcium)
    let w = put_tokens t (put_obligation a.obligation o' c.world)
    ok (
        put_arcium q (
          put_private a.private_obligation po'
            (record (put_world w c) { sign_bump = ar.sign_pda.1 })))

  unfoldable pub add_collateral_v2_callback : CallbackContext → Out → Chain T Q → Result (Chain T Q)
  unfolding callback_accounts_check
  add_collateral_v2_callback a output c = do
    callback_accounts_check ar "add_collateral_v2" a.callback c.arcium
    po ← or_missing (c.private_obligations a.private_obligation)
    enc ←
        ok_or
          (ar.verify_encrypted a.callback.cluster_account a.callback.computation_account c.arcium
            output)
          LendingError.aborted_computation
    ok (put_private a.private_obligation (store_encrypted enc po) c)
