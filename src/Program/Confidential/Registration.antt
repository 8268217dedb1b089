-- ===== src/Program/Confidential/Registration.antt =====
-- The registrations of circuits and the first position (init_private_obligation.rs).
use veil_vault.Base.{
  ℕ, ◌≡◌, none, some, [], LendingError, ok, ok_or, or_failed, or_missing, arith, Ensures, step,
  returns,
}
use veil_vault.Market.{LendingMarket}
use veil_vault.Runtime.{Runtime}
use veil_vault.Arcium.{Arcium, CompDefAccounts, callback_accounts_check, comp_def_accounts_check}
use veil_vault.Private.{PrivateObligation, Chain, private_seeds}
use veil_vault.Private.Setup.{
  InitPrivateObligationAccounts, CallbackContext, reset, or_new, init_position_comp_def,
  init_private_obligation_check, init_private_obligation, init_position_v2_callback,
}
use veil_vault.Private.DepositCollateral.{add_collateral_comp_def}
use veil_vault.Private.Borrow.{add_borrow_comp_def}
use veil_vault.Private.Check.{check_health_comp_def}
use veil_vault.Program.Sound.{IsSound}
use veil_vault.Program.Records.{
  Keeps, IsDerived, same, opened, rewritten, reset_lem, store_initial-SameRecord,
}

module _ {T Q Out : Type 0} (rt : Runtime T) (ar : Arcium Q Out) where
  at_seeds :
      (a : InitPrivateObligationAccounts) (computation_offset : ℕ) (m : LendingMarket) (q : Q)
      (po : PrivateObligation)
      → po.owner ≡ a.payer
      → po.lending_market ≡ a.lending_market
      → po.bump ≡ (rt.find_program_address (private_seeds a.lending_market a.payer)).1
      → init_private_obligation_check rt ar a computation_offset m q ≡ ok tt
      → IsDerived rt a.private_obligation po
  unfolding init_private_obligation_check
  at_seeds a computation_offset m q po eo em eb h = rw (eo, em) (ground arith, eb)

  pub init_position_comp_def-Keeps :
      (a : CompDefAccounts) (c : Chain T Q)
      → IsSound c.world
      → Ensures (Keeps rt c) (init_position_comp_def rt ar a c)
  unfolding init_position_comp_def
  init_position_comp_def-Keeps a c s = step (comp_def_accounts_check ar a c.arcium) λ _ _.
      step
        (or_failed (
          ar.init_comp_def "init_position_v2"
            (some
              "https://raw.githubusercontent.com/AsthaMishra/veil-vault/main/build/init_position_v2.arcis")
            a c.arcium))
        λ q _. returns (s, same)

  pub add_collateral_comp_def-Keeps :
      (a : CompDefAccounts) (c : Chain T Q)
      → IsSound c.world
      → Ensures (Keeps rt c) (add_collateral_comp_def rt ar a c)
  unfolding add_collateral_comp_def
  add_collateral_comp_def-Keeps a c s = step (comp_def_accounts_check ar a c.arcium) λ _ _.
      step
        (or_failed (
          ar.init_comp_def "add_collateral_v2"
            (some
              "https://raw.githubusercontent.com/AsthaMishra/veil-vault/main/build/add_collateral_v2.arcis")
            a c.arcium))
        λ q _. returns (s, same)

  pub add_borrow_comp_def-Keeps :
      (a : CompDefAccounts) (c : Chain T Q)
      → IsSound c.world
      → Ensures (Keeps rt c) (add_borrow_comp_def rt ar a c)
  unfolding add_borrow_comp_def
  add_borrow_comp_def-Keeps a c s = step (comp_def_accounts_check ar a c.arcium) λ _ _.
      step
        (or_failed (
          ar.init_comp_def "add_borrow_v2"
            (some
              "https://raw.githubusercontent.com/AsthaMishra/veil-vault/main/build/add_borrow_v2.arcis")
            a c.arcium))
        λ q _. returns (s, same)

  pub check_health_comp_def-Keeps :
      (a : CompDefAccounts) (c : Chain T Q)
      → IsSound c.world
      → Ensures (Keeps rt c) (check_health_comp_def rt ar a c)
  unfolding check_health_comp_def
  check_health_comp_def-Keeps a c s = step (comp_def_accounts_check ar a c.arcium) λ _ _.
      step (or_failed (ar.init_comp_def "check_health_v2" none a c.arcium)) λ q _. returns (s, same)

  pub init_private_obligation-Keeps :
      (a : InitPrivateObligationAccounts) (computation_offset : ℕ) (c : Chain T Q)
      → IsSound c.world
      → Ensures (Keeps rt c) (init_private_obligation rt ar a computation_offset c)
  unfolding init_private_obligation
  init_private_obligation-Keeps a computation_offset c s =
      step (or_missing (c.world.markets a.lending_market)) λ m _.
        step (init_private_obligation_check rt ar a computation_offset m c.arcium) λ _ hs.
          step
            (reset (rt.find_program_address (private_seeds a.lending_market a.payer)).1 a.payer
              a.lending_market (or_new (c.private_obligations a.private_obligation)))
            λ po hp.
              step
                (or_failed (
                  ar.queue_computation
                    (record {
                      offset = computation_offset;
                      circuit = "init_position_v2";
                      args = [];
                      callback_account = a.private_obligation;
                    })
                    c.arcium))
                λ q _.
                  let (fresh, owner, market, bump) = reset_lem _ a.payer a.lending_market _ po hp in
                  returns (
                    s,
                    opened a.private_obligation po fresh
                        (at_seeds a computation_offset m c.arcium po owner market bump hs),
                  )

  pub init_position_v2_callback-Keeps :
      (a : CallbackContext) (output : Out) (c : Chain T Q)
      → IsSound c.world
      → Ensures (Keeps rt c) (init_position_v2_callback rt ar a output c)
  unfolding init_position_v2_callback
  init_position_v2_callback-Keeps a output c s =
      step (callback_accounts_check ar "init_position_v2" a.callback c.arcium) λ _ _.
        step (or_missing (c.private_obligations a.private_obligation)) λ po hp.
          step
            (ok_or
              (ar.verify_encrypted a.callback.cluster_account a.callback.computation_account
                c.arcium output)
              LendingError.aborted_computation)
            λ enc _.
              returns (s, rewritten a.private_obligation po _ hp (store_initial-SameRecord po enc))
