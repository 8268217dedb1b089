-- ===== src/Program/Run.antt =====
-- Runs of the program: a failing instruction leaves the chain as it was.
use veil_vault.Base.{◌≢◌, refl, List, [], ◌∷◌, Result, ok, err, unwrap_or, Ensures, step, returns}
use veil_vault.Constants.{Pubkey}
use veil_vault.Runtime.{Clock, Seed, Runtime, World}
use veil_vault.Arcium.{Arcium}
use veil_vault.Private.{Chain}
use veil_vault.Program.{Instruction, process, publicly}
use veil_vault.Program.Sound.{IsSound}
use veil_vault.Program.Cleartext.{
  deposit-IsSound, withdraw-IsSound, deposit_collateral-IsSound, withdraw_collateral-IsSound,
  borrow-IsSound, repay-IsSound, refresh_reserve-IsSound, refresh_obligation-IsSound,
  liquidate-IsSound, initialize_market-IsSound, set_pause-IsSound, update_market_authority-IsSound,
  update_reserve_config-IsSound, init_obligation-IsSound, add_reserve-IsSound,
}
use veil_vault.Program.Lasting.{AllDerived, HeldBy, move-AllDerived, move-HeldBy}
use veil_vault.Program.Records.{PrivateMove}
use veil_vault.Program.Records.{Keeps}
use veil_vault.Program.Confidential.{
  init_position_comp_def-Keeps, add_collateral_comp_def-Keeps, add_borrow_comp_def-Keeps,
  check_health_comp_def-Keeps, init_private_obligation-Keeps, init_position_v2_callback-Keeps,
  add_collateral_v2_callback-Keeps, add_borrow_v2_callback-Keeps, private_deposit_collateral-Keeps,
  private_borrow-Keeps, private_check_liquidatable-Keeps, check_health_v2_callback-Keeps,
  execute_private_liquidation-Keeps,
}

module _ {T Q Out : Type 0} (rt : Runtime T) (ar : Arcium Q Out) where
  -- A transaction's instruction with the clock at that time.
  unfoldable pub run : List (Clock × Instruction Out) → Chain T Q → Chain T Q
  run [] c = c
  run ((clock, i) ∷ is) c = run is (unwrap_or (process rt ar clock i c) c)

  publicly-Keeps :
      (m : Result (World T)) (c : Chain T Q)
      → Ensures IsSound m
      → Ensures (Keeps rt c) (publicly m c)
  publicly-Keeps m c s = step m λ w h. returns (s.holds w h, PrivateMove.same)

  outcome-Keeps :
      (P : Chain T Q → Type 0)
      → ((c c' : Chain T Q) → Keeps rt c c' → P c → P c')
      → (m : Result (Chain T Q)) (c : Chain T Q) → Ensures (Keeps rt c) m
      → IsSound c.world
      → P c
      → IsSound (unwrap_or m c).world × P (unwrap_or m c)
  outcome-Keeps P keep (ok c') c e s p = let k = e.holds c' refl in (k.0, keep c c' k p)
  outcome-Keeps P keep (err x) c e s p = (s, p)

  module _ (off_default : (seeds : List Seed) → (rt.find_program_address seeds).0 ≢ 0) where
    -- Every instruction keeps the invariant.
    process-Keeps :
        (clock : Clock) (i : Instruction Out) (c : Chain T Q)
        → IsSound c.world
        → Ensures (Keeps rt c) (process rt ar clock i c)
    unfolding process
    process-Keeps clock (Instruction.initialize_market a args) c s =
        publicly-Keeps _ c (initialize_market-IsSound rt a args c.world s)
    process-Keeps clock (Instruction.add_reserve a args) c s =
        publicly-Keeps _ c (add_reserve-IsSound rt off_default a args clock c.world s)
    process-Keeps clock (Instruction.deposit a n) c s =
        publicly-Keeps _ c (deposit-IsSound rt a n clock c.world s)
    process-Keeps clock (Instruction.deposit_collateral a n) c s =
        publicly-Keeps _ c (deposit_collateral-IsSound rt a n clock c.world s)
    process-Keeps clock (Instruction.withdraw_collateral a n) c s =
        publicly-Keeps _ c (withdraw_collateral-IsSound rt a n clock c.world s)
    process-Keeps clock (Instruction.init_obligation a) c s =
        publicly-Keeps _ c (init_obligation-IsSound rt a c.world s)
    process-Keeps clock (Instruction.borrow a n) c s =
        publicly-Keeps _ c (borrow-IsSound rt a n clock c.world s)
    process-Keeps clock (Instruction.repay a n) c s =
        publicly-Keeps _ c (repay-IsSound rt a n clock c.world s)
    process-Keeps clock (Instruction.withdraw a n) c s =
        publicly-Keeps _ c (withdraw-IsSound rt a n clock c.world s)
    process-Keeps clock (Instruction.refresh_reserve a u) c s =
        publicly-Keeps _ c (refresh_reserve-IsSound rt a u clock c.world s)
    process-Keeps clock (Instruction.refresh_obligation a) c s =
        publicly-Keeps _ c (refresh_obligation-IsSound rt a clock c.world s)
    process-Keeps clock (Instruction.liquidate a n) c s =
        publicly-Keeps _ c (liquidate-IsSound rt a n clock c.world s)
    process-Keeps clock (Instruction.set_pause a b) c s =
        publicly-Keeps _ c (set_pause-IsSound rt a b c.world s)
    process-Keeps clock (Instruction.update_reserve_config a args) c s =
        publicly-Keeps _ c (update_reserve_config-IsSound rt a args c.world s)
    process-Keeps clock (Instruction.update_market_authority a k) c s =
        publicly-Keeps _ c (update_market_authority-IsSound rt a k c.world s)
    process-Keeps clock (Instruction.init_position_comp_def a) c s =
        init_position_comp_def-Keeps rt ar a c s
    process-Keeps clock (Instruction.add_collateral_comp_def a) c s =
        add_collateral_comp_def-Keeps rt ar a c s
    process-Keeps clock (Instruction.add_borrow_comp_def a) c s =
        add_borrow_comp_def-Keeps rt ar a c s
    process-Keeps clock (Instruction.check_health_comp_def a) c s =
        check_health_comp_def-Keeps rt ar a c s
    process-Keeps clock (Instruction.init_private_obligation a k) c s =
        init_private_obligation-Keeps rt ar a k c s
    process-Keeps clock (Instruction.private_deposit_collateral a k n e) c s =
        private_deposit_collateral-Keeps rt ar a k n e c s
    process-Keeps clock (Instruction.private_borrow a k n e) c s =
        private_borrow-Keeps rt ar a k n e clock c s
    process-Keeps clock (Instruction.private_check_liquidatable a k h) c s =
        private_check_liquidatable-Keeps rt ar a k h c s
    process-Keeps clock (Instruction.execute_private_liquidation a n) c s =
        execute_private_liquidation-Keeps rt ar a n clock c s
    process-Keeps clock (Instruction.init_position_v2_callback a out) c s =
        init_position_v2_callback-Keeps rt ar a out c s
    process-Keeps clock (Instruction.add_collateral_v2_callback a out) c s =
        add_collateral_v2_callback-Keeps rt ar a out c s
    process-Keeps clock (Instruction.add_borrow_v2_callback a out) c s =
        add_borrow_v2_callback-Keeps rt ar a out c s
    process-Keeps clock (Instruction.check_health_v2_callback a out) c s =
        check_health_v2_callback-Keeps rt ar a out c s

    -- What every instruction keeps from one chain to the next, a run keeps.
    run-Keeps :
        (P : Chain T Q → Type 0)
        → ((c c' : Chain T Q) → Keeps rt c c' → P c → P c')
        → (is : List (Clock × Instruction Out)) (c : Chain T Q) → IsSound c.world
        → P c
        → IsSound (run is c).world × P (run is c)
    unfolding run
    run-Keeps P keep [] c s p = (s, p)
    run-Keeps P keep ((clock, i) ∷ is) c s p =
        let (s', p') =
          outcome-Keeps P keep (process rt ar clock i c) c (process-Keeps clock i c s) s p in
        run-Keeps P keep is (unwrap_or (process rt ar clock i c) c) s' p'

    module _ (is : List (Clock × Instruction Out)) (c : Chain T Q) (s : IsSound c.world) where
      -- Where no program address is the default key: a run of the program's instructions, in any
      -- order and whether each succeeds or fails, from accounts of which every obligation and every
      -- reserve's configuration is valid and none is a reserve at the default key, ends with such
      -- accounts.
      pub run-IsSound : IsSound (run is c).world
      run-IsSound = (run-Keeps (λ _. Unit {0}) (λ _ _ _ _. tt) is c s tt).0

      -- Where no program address is the default key, and the accounts are sound: if every record of
      -- a confidential position stands at the address, and has the bump, that its market and its
      -- owner give, it does so after any run.
      pub run-AllDerived :
          AllDerived rt c.private_obligations → AllDerived rt (run is c).private_obligations
      run-AllDerived all =
          (run-Keeps (λ x. AllDerived rt x.private_obligations) (λ c c' k. move-AllDerived rt (k.1))
            is c s all).1

      -- Where no program address is the default key, and the accounts are sound: a record of a
      -- confidential position that is initialized is never closed, reset or handed over. After
      -- any run it is initialized, with the same owner and market.
      pub run-HeldBy :
          (k owner market : Pubkey)
          → HeldBy k owner market c.private_obligations
          → HeldBy k owner market (run is c).private_obligations
      run-HeldBy k owner market held =
          (run-Keeps (λ x. HeldBy k owner market x.private_obligations)
            (λ c c' m. move-HeldBy rt k owner market (m.1)) is c s held).1
