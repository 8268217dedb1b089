-- ===== src/Program/Locked/Run.antt =====
-- programs/veilvault/src/lib.rs: whole runs of instructions and the collateral that is locked.
use mathlib.Core.Path.{subst}
use veil_vault.Base.{
  ◌≡◌, ◌≢◌, refl, sym, List, [], ◌∷◌, Result, ok, err, unwrap_or, Ensures, step, returns, follows,
}
use veil_vault.Runtime.{Clock, Runtime, Seed, World}
use veil_vault.Tokens.{AddressLaws, TokenLaws}
use veil_vault.Tokens.Effects.{Ledger}
use veil_vault.Arcium.{Arcium}
use veil_vault.Private.{Chain}
use veil_vault.Program.{Instruction, process, publicly}
use veil_vault.Program.Run.{run, run-IsSound}
use veil_vault.Program.Sound.{IsSound}
use veil_vault.Program.Backing.Run.{IsSigned, AllSigned}
use veil_vault.Program.Backing.Confidential.{
  init_position_comp_def-SameWorld, add_collateral_comp_def-SameWorld,
  add_borrow_comp_def-SameWorld, check_health_comp_def-SameWorld, init_private_obligation-SameWorld,
  private_check_liquidatable-SameWorld, init_position_v2_callback-SameWorld,
  add_collateral_v2_callback-SameWorld, add_borrow_v2_callback-SameWorld,
  check_health_v2_callback-SameWorld,
}
use veil_vault.Program.Locked.Defs.{IsSecured}
use veil_vault.Program.Locked.Opening.{add_reserve-IsSecured}
use veil_vault.Program.Locked.Cleartext.{
  deposit-IsSecured, withdraw-IsSecured, deposit_collateral-IsSecured,
  withdraw_collateral-IsSecured, borrow-IsSecured, repay-IsSecured,
}
use veil_vault.Program.Locked.Liquidation.{
  liquidate-IsSecured, execute_private_liquidation-IsSecured,
}
use veil_vault.Program.Locked.Confidential.{
  private_deposit_collateral-IsSecured, private_borrow-IsSecured,
}
use veil_vault.Program.Locked.Others.{
  initialize_market-IsSecured, init_obligation-IsSecured, set_pause-IsSecured,
  update_market_authority-IsSecured, refresh_obligation-IsSecured, refresh_reserve-IsSecured,
  update_reserve_config-IsSecured,
}

module _ {T Q Out : Type 0} (rt : Runtime T) (ar : Arcium Q Out) (l : Ledger T)
    (laws : TokenLaws rt l) (addresses : AddressLaws rt)
    (off_default : (seeds : List Seed) → (rt.find_program_address seeds).0 ≢ 0) where
  abbrev Locks : Chain T Q → Type 0
  Locks c = IsSecured rt l c.world

  module _ (c : Chain T Q) (s : IsSound c.world) (all : Locks c) where
    publicly-Locks :
        {m : Result (World T)} → Ensures (IsSecured rt l) m → Ensures Locks (publicly m c)
    publicly-Locks {m} e = step m λ w h. returns (e.holds w h)

    apart-Locks : {m : Result (Chain T Q)} → Ensures (λ c'. c'.world ≡ c.world) m → Ensures Locks m
    apart-Locks e = follows e λ c' same. subst (IsSecured rt l) (sym same) all

    process-Locks :
        (clock : Clock) (i : Instruction Out)
        → IsSigned rt i
        → Ensures Locks (process rt ar clock i c)
    unfolding process
    process-Locks clock (Instruction.initialize_market a args) z =
        publicly-Locks (initialize_market-IsSecured rt l c.world s.no_default all a args)
    process-Locks clock (Instruction.add_reserve a args) z =
        publicly-Locks (add_reserve-IsSecured rt l laws a args clock c.world (off_default _) all)
    process-Locks clock (Instruction.deposit a n) z =
        publicly-Locks (deposit-IsSecured rt l laws addresses n clock c.world s all a z)
    process-Locks clock (Instruction.deposit_collateral a n) z =
        publicly-Locks (deposit_collateral-IsSecured rt l laws addresses n clock c.world s all a z)
    process-Locks clock (Instruction.withdraw_collateral a n) z =
        publicly-Locks (withdraw_collateral-IsSecured rt l laws addresses n clock c.world s all a)
    process-Locks clock (Instruction.init_obligation a) z =
        publicly-Locks (init_obligation-IsSecured rt l c.world s.no_default all a)
    process-Locks clock (Instruction.borrow a n) z =
        publicly-Locks (borrow-IsSecured rt l laws addresses n clock c.world s all a)
    process-Locks clock (Instruction.repay a n) z =
        publicly-Locks (repay-IsSecured rt l laws addresses n clock c.world s all a z)
    process-Locks clock (Instruction.withdraw a n) z =
        publicly-Locks (withdraw-IsSecured rt l laws addresses n clock c.world s all a z)
    process-Locks clock (Instruction.refresh_reserve a u) z =
        publicly-Locks (refresh_reserve-IsSecured rt l c.world s.no_default all a u clock)
    process-Locks clock (Instruction.refresh_obligation a) z =
        publicly-Locks (refresh_obligation-IsSecured rt l c.world s.no_default all a clock)
    process-Locks clock (Instruction.liquidate a n) z =
        publicly-Locks (liquidate-IsSecured rt l laws addresses n clock a c.world s all z)
    process-Locks clock (Instruction.set_pause a b) z =
        publicly-Locks (set_pause-IsSecured rt l c.world s.no_default all a b)
    process-Locks clock (Instruction.update_reserve_config a args) z =
        publicly-Locks (update_reserve_config-IsSecured rt l c.world s.no_default all a args)
    process-Locks clock (Instruction.update_market_authority a k) z =
        publicly-Locks (update_market_authority-IsSecured rt l c.world s.no_default all a k)
    process-Locks clock (Instruction.init_position_comp_def a) z =
        apart-Locks (init_position_comp_def-SameWorld rt ar c a)
    process-Locks clock (Instruction.add_collateral_comp_def a) z =
        apart-Locks (add_collateral_comp_def-SameWorld rt ar c a)
    process-Locks clock (Instruction.add_borrow_comp_def a) z =
        apart-Locks (add_borrow_comp_def-SameWorld rt ar c a)
    process-Locks clock (Instruction.check_health_comp_def a) z =
        apart-Locks (check_health_comp_def-SameWorld rt ar c a)
    process-Locks clock (Instruction.init_private_obligation a k) z =
        apart-Locks (init_private_obligation-SameWorld rt ar c a k)
    process-Locks clock (Instruction.private_deposit_collateral a k n e) z =
        private_deposit_collateral-IsSecured rt ar l laws addresses n k e c s all a z
    process-Locks clock (Instruction.private_borrow a k n e) z =
        private_borrow-IsSecured rt ar l laws addresses n k e c s all a clock
    process-Locks clock (Instruction.private_check_liquidatable a k i) z =
        apart-Locks (private_check_liquidatable-SameWorld rt ar c a k i)
    process-Locks clock (Instruction.execute_private_liquidation a n) z =
        execute_private_liquidation-IsSecured rt l laws addresses n clock a c s all z
    process-Locks clock (Instruction.init_position_v2_callback a out) z =
        apart-Locks (init_position_v2_callback-SameWorld rt ar c a out)
    process-Locks clock (Instruction.add_collateral_v2_callback a out) z =
        apart-Locks (add_collateral_v2_callback-SameWorld rt ar c a out)
    process-Locks clock (Instruction.add_borrow_v2_callback a out) z =
        apart-Locks (add_borrow_v2_callback-SameWorld rt ar c a out)
    process-Locks clock (Instruction.check_health_v2_callback a out) z =
        apart-Locks (check_health_v2_callback-SameWorld rt ar c a out)

  outcome-Locks :
      (m : Result (Chain T Q)) (c : Chain T Q) → Locks c → Ensures Locks m → Locks (unwrap_or m c)
  outcome-Locks (ok c') c all e = e.holds c' refl
  outcome-Locks (err x) c all e = all

  -- Every position's collateral is there. Where each call of the token program has its documented
  -- effect, the vaults, mints and collateral accounts of reserves have distinct addresses, no
  -- program address is the default key, whoever signs for tokens is no program address, and the
  -- accounts are sound: if at the start, for every stored reserve, the cTokens that all
  -- obligations have locked at it, summed, are in its collateral account, which belongs to a
  -- program address without a delegate, and nothing is locked at any other key but the default
  -- one, then so it is after any run of the program's instructions, in any order and whether each
  -- succeeds or fails.
  pub run-IsSecured :
      (is : List (Clock × Instruction Out)) (c : Chain T Q)
      → AllSigned rt is
      → IsSound c.world
      → IsSecured rt l c.world
      → IsSecured rt l (run rt ar is c).world
  unfolding run
  run-IsSecured [] c z s all = all
  run-IsSecured ((clock, i) ∷ is) c (z, zs) s all =
      let sound = run-IsSound rt ar off_default ((clock, i) ∷ []) c s in
      run-IsSecured is (unwrap_or (process rt ar clock i c) c) zs sound
        (outcome-Locks (process rt ar clock i c) c all (process-Locks c s all clock i z))
