-- ===== src/Private/Check.antt =====
-- programs/veilvault/src/instructions/private_liquidate.rs, first half: the encrypted health check
-- is queued by anyone, and its callback sets or clears the flag of the position.
use veil_vault.Base.{
  ℕ, ◌+◌, Bool, true, false, not, none, List, [], ◌∷◌, LendingError, Result, ok, require, ok_or,
  or_failed, or_missing, ◌>>=◌, ◌>>◌, if◌then◌else◌,
}
use veil_vault.Constants.{Pubkey}
use veil_vault.Market.{LendingMarket}
use veil_vault.Runtime.{Runtime, check_market_seeds}
use veil_vault.Arcium.{
  Arcium, Arg, QueueAccounts, CompDefAccounts, queue_accounts_check, callback_accounts_check,
  comp_def_accounts_check,
}
use veil_vault.Private.{
  PrivateObligation, LiquidatableEvent, Chain, put_private, put_arcium, check_private_seeds,
}
use veil_vault.Private.Setup.{CallbackContext}

pub record PrivateCheckLiquidatableAccounts : Type 0 where
  pub liquidator : Pubkey
  pub queue : QueueAccounts
  pub lending_market : Pubkey
  pub obligation_owner : Pubkey
  pub private_obligation : Pubkey

-- The values in clear, as the caller gives them.
pub record HealthInputs : Type 0 where
  pub exchange_rate_bps : ℕ
  pub collateral_price_cents : ℕ
  pub borrow_price_cents : ℕ
  pub ltv_bps : ℕ

unfoldable pub check_args : HealthInputs → PrivateObligation → Pubkey → List Arg
check_args h po k =
    Arg.plaintext_u128 po.nonce
    ∷ Arg.account k (8 + 1) 64
    ∷ Arg.plaintext_u64 h.exchange_rate_bps
    ∷ Arg.plaintext_u64 h.collateral_price_cents
    ∷ Arg.plaintext_u64 h.borrow_price_cents
    ∷ Arg.plaintext_u64 h.ltv_bps
    ∷ []

-- The callback on the record.
unfoldable pub flag : Bool → PrivateObligation → PrivateObligation
flag is_healthy po =
    if not is_healthy
    then record po { is_liquidatable = true }
    else record po { is_liquidatable = false }

module _ {T Q Out : Type 0} (rt : Runtime T) (ar : Arcium Q Out) where
  unfoldable pub check_health_comp_def : CompDefAccounts → Chain T Q → Result (Chain T Q)
  unfolding comp_def_accounts_check
  check_health_comp_def a c = do
    comp_def_accounts_check ar a c.arcium
    q ← or_failed (ar.init_comp_def "check_health_v2" none a c.arcium)
    ok (put_arcium q c)

  unfoldable pub private_check_liquidatable_check :
      PrivateCheckLiquidatableAccounts
      → ℕ
      → LendingMarket
      → PrivateObligation
      → Q
      → Result (Unit {0})
  unfolding queue_accounts_check
  private_check_liquidatable_check a computation_offset m po q = do
    queue_accounts_check ar "check_health_v2" computation_offset a.queue q
    check_market_seeds rt m.owner m a.lending_market
    check_private_seeds rt a.lending_market a.obligation_owner po a.private_obligation

  unfoldable pub private_check_liquidatable :
      PrivateCheckLiquidatableAccounts → ℕ → HealthInputs → Chain T Q → Result (Chain T Q)
  private_check_liquidatable a computation_offset h c = do
    m ← or_missing (c.world.markets a.lending_market)
    po ← or_missing (c.private_obligations a.private_obligation)
    private_check_liquidatable_check a computation_offset m po c.arcium
    require po.is_initialized LendingError.private_obligation_not_initialized
    q ← or_failed (
        ar.queue_computation
          (record {
            offset = computation_offset;
            circuit = "check_health_v2";
            args = check_args h po a.private_obligation;
            callback_account = a.private_obligation;
          })
          c.arcium)
    ok (put_arcium q (record c { sign_bump = ar.sign_pda.1 }))

  unfoldable pub check_health_v2_callback : CallbackContext → Out → Chain T Q → Result (Chain T Q)
  unfolding callback_accounts_check
  check_health_v2_callback a output c = do
    callback_accounts_check ar "check_health_v2" a.callback c.arcium
    po ← or_missing (c.private_obligations a.private_obligation)
    is_healthy ←
        ok_or
          (ar.verify_bool a.callback.cluster_account a.callback.computation_account c.arcium output)
          LendingError.aborted_computation
    let event : LiquidatableEvent = record {
      private_obligation = a.private_obligation;
      owner = po.owner;
    }
    let c' = put_private a.private_obligation (flag is_healthy po) c
    ok (if not is_healthy then record c' { events = event ∷ c.events } else c')
