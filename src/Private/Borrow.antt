-- ===== src/Private/Borrow.antt =====
-- programs/veilvault/src/instructions/private_borrow.rs: a loan against the public obligation, with
-- a computation queued that adds it to the encrypted position.
pub mod Oracle
use Prim.Native.String.{String}
use veil_vault.Base.{
  ℕ, Bool, not, ◌||◌, Option, none, some, List, [], ◌∷◌, LendingError, Result, ok, require, ok_or,
  or_failed, or_missing, ◌>>=◌, ◌>>◌, ltb, ◌==◌, if◌then◌else◌,
}
use veil_vault.Constants.{Pubkey, default_key}
use veil_vault.LastUpdate.{is_slot_stale}
use veil_vault.Market.{LendingMarket, is_paused}
use veil_vault.Reserve
use veil_vault.Reserve.{Reserve}
use veil_vault.Reserve.Config.{is_active}
use veil_vault.Obligation
use veil_vault.Obligation.{Obligation}
use veil_vault.Runtime.{
  Clock, Runtime, text, key, put_reserve, put_obligation, put_tokens, check_seeds,
  check_market_seeds, check_token_mint, reserve_seeds, obligation_seeds,
}
use veil_vault.Instructions.Borrow.{accrue_existing, check_covered}
use veil_vault.Arcium.{
  Arcium, QueueAccounts, CompDefAccounts, queue_accounts_check, callback_accounts_check,
  comp_def_accounts_check,
}
use veil_vault.Private.{
  PrivateObligation, Chain, store_encrypted, put_private, put_world, put_arcium,
  check_private_seeds,
}
use veil_vault.Private.Setup.{CallbackContext}
use veil_vault.Private.DepositCollateral.{EncryptedAmount, add_args}

pub record PrivateBorrowAccounts : Type 0 where
  pub borrower : Pubkey
  pub queue : QueueAccounts
  pub lending_market : Pubkey
  pub obligation : Pubkey
  pub reserve : Pubkey
  pub reserve_mint : Pubkey
  pub liquidity_vault : Pubkey
  pub user_token_account : Pubkey
  pub private_obligation : Pubkey

unfoldable pub oracle_is_set : Reserve → Bool
oracle_is_set r = not (r.config.pyth_oracle == default_key)

-- The reserve's part: without an oracle no price is asked for.
unfoldable pub private_borrow_reserve : ℕ → ℕ → Reserve → Result Reserve
unfolding oracle_is_set
private_borrow_reserve slot amount r = do
  require (is_active r.config) LendingError.invalid_config
  require (not (oracle_is_set r) || ltb 0 (r.liquidity.market_price_sf))
      LendingError.price_not_valid
  accrued ← Reserve.accrue_interest slot r
  Reserve.borrow amount accrued

-- The obligation's part: without an oracle no refresh is asked for. The check that collateral
-- covers the loan is the one of the public instruction, written out a second time.
unfoldable pub private_borrow_obligation :
    Bool → Pubkey → (amount index price slot : ℕ) → Obligation → Result Obligation
private_borrow_obligation oracle reserve_key amount index price slot o = do
  require (not oracle || not (is_slot_stale o.last_update slot)) LendingError.obligation_stale
  accrued ← accrue_existing reserve_key index o
  o' ← Obligation.borrow reserve_key amount index accrued
  check_covered amount price o'
  ok o'

unfoldable pub note_borrow_reserve : Pubkey → PrivateObligation → PrivateObligation
note_borrow_reserve reserve_key po =
    if po.borrow_reserve == default_key then record po { borrow_reserve = reserve_key } else po

module _ {T Q Out : Type 0} (rt : Runtime T) (ar : Arcium Q Out) where
  unfoldable pub add_borrow_comp_def : CompDefAccounts → Chain T Q → Result (Chain T Q)
  unfolding comp_def_accounts_check
  add_borrow_comp_def a c = do
    comp_def_accounts_check ar a c.arcium
    q ← or_failed (
        ar.init_comp_def "add_borrow_v2"
          (some
            "https://raw.githubusercontent.com/AsthaMishra/veil-vault/main/build/add_borrow_v2.arcis")
          a c.arcium)
    ok (put_arcium q c)

  unfoldable pub private_borrow_check :
      PrivateBorrowAccounts → ℕ → LendingMarket → PrivateObligation → T → Q → Result (Unit {0})
  unfolding queue_accounts_check
  private_borrow_check a computation_offset m po t q = do
    queue_accounts_check ar "add_borrow_v2" computation_offset a.queue q
    check_market_seeds rt m.owner m a.lending_market
    check_seeds rt (obligation_seeds a.lending_market a.borrower) a.obligation
    check_seeds rt (reserve_seeds a.lending_market a.reserve_mint) a.reserve
    check_seeds rt (text "liquidity_vault" ∷ key a.reserve ∷ []) a.liquidity_vault
    check_token_mint rt t a.user_token_account a.reserve_mint
    check_private_seeds rt a.lending_market a.borrower po a.private_obligation

  unfoldable pub private_borrow :
      PrivateBorrowAccounts
      → (computation_offset amount : ℕ) → EncryptedAmount
      → Clock
      → Chain T Q
      → Result (Chain T Q)
  private_borrow a computation_offset amount e clock c = do
    m ← or_missing (c.world.markets a.lending_market)
    o ← or_missing (c.world.obligations a.obligation)
    r ← or_missing (c.world.reserves a.reserve)
    decimals ← or_missing (rt.mint_decimals c.world.tokens a.reserve_mint)
    po ← or_missing (c.private_obligations a.private_obligation)
    private_borrow_check a computation_offset m po c.world.tokens c.arcium
    require (ltb 0 amount) LendingError.invalid_amount
    require po.is_initialized LendingError.private_obligation_not_initialized
    require (not (is_paused m)) LendingError.invalid_config
    r' ← private_borrow_reserve clock.slot amount r
    o' ←
        private_borrow_obligation (oracle_is_set r) a.reserve amount
          (r'.liquidity.cumulative_borrow_rate_sf) (r'.liquidity.market_price_sf) clock.slot o
    t ← or_failed (
        rt.transfer_checked a.liquidity_vault a.reserve_mint a.user_token_account a.lending_market
          amount decimals c.world.tokens)
    let po' = note_borrow_reserve a.reserve po
    q ← or_failed (
        ar.queue_computation
          (record {
            offset = computation_offset;
            circuit = "add_borrow_v2";
            args = add_args e po' a.private_obligation;
            callback_account = a.private_obligation;
          })
          c.arcium)
    let w = put_tokens t (put_obligation a.obligation o' (put_reserve a.reserve r' c.world))
    ok (
        put_arcium q (
          put_private a.private_obligation po'
            (record (put_world w c) { sign_bump = ar.sign_pda.1 })))

  unfoldable pub add_borrow_v2_callback : CallbackContext → Out → Chain T Q → Result (Chain T Q)
  unfolding callback_accounts_check
  add_borrow_v2_callback a output c = do
    callback_accounts_check ar "add_borrow_v2" a.callback c.arcium
    po ← or_missing (c.private_obligations a.private_obligation)
    enc ←
        ok_or
          (ar.verify_encrypted a.callback.cluster_account a.callback.computation_account c.arcium
            output)
          LendingError.aborted_computation
    ok (put_private a.private_obligation (store_encrypted enc po) c)
