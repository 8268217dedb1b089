-- ===== src/Program/Backing/Run.antt =====
-- programs/veilvault/src/lib.rs: whole runs of instructions and the tokens behind the pools.
use veil_vault.Base.{
  List, [], ◌∷◌, Result, ok, err, unwrap_or, Ensures, step, returns, follows, refl, ◌≡◌, sym,
}
use mathlib.Core.Path.{subst}
use veil_vault.Runtime.{Clock, Runtime, World}
use veil_vault.Tokens.{IsWallet, AddressLaws, TokenLaws}
use veil_vault.Tokens.Effects.{Ledger}
use veil_vault.Arcium.{Arcium}
use veil_vault.Private.{Chain}
use veil_vault.Program.{Instruction, process, publicly}
use veil_vault.Program.Run.{run}
use veil_vault.Program.Backing.Worlds.{IsBacked}
use veil_vault.Program.Backing.Cleartext.{
  deposit-IsBacked, withdraw-IsBacked, deposit_collateral-IsBacked, withdraw_collateral-IsBacked,
  borrow-IsBacked, repay-IsBacked,
}
use veil_vault.Program.Backing.Opening.{add_reserve-IsBacked}
use veil_vault.Program.Backing.Liquidation.{
  liquidate-IsBacked, execute_private_liquidation-IsBacked,
}
use veil_vault.Program.Backing.Others.{
  initialize_market-SamePools, init_obligation-SamePools, set_pause-SamePools,
  update_market_authority-SamePools, refresh_obligation-SamePools, same-IsBacked,
  refresh_reserve-IsBacked, update_reserve_config-IsBacked,
}
use veil_vault.Program.Backing.Confidential.{
  init_position_comp_def-SameWorld, add_collateral_comp_def-SameWorld,
  add_borrow_comp_def-SameWorld, check_health_comp_def-SameWorld, init_private_obligation-SameWorld,
  private_check_liquidatable-SameWorld, init_position_v2_callback-SameWorld,
  add_collateral_v2_callback-SameWorld, add_borrow_v2_callback-SameWorld,
  check_health_v2_callback-SameWorld, private_deposit_collateral-IsBacked, private_borrow-IsBacked,
}

module _ {T Out : Type 0} (rt : Runtime T) where
  -- Whoever signs for tokens has a private key, so the signer is no program address.
  abbrev pub IsSigned : Instruction Out → Type 0
  IsSigned (Instruction.deposit a n) = IsWallet rt a.depositor
  IsSigned (Instruction.withdraw a n) = IsWallet rt a.depositor
  IsSigned (Instruction.deposit_collateral a n) = IsWallet rt a.depositor
  IsSigned (Instruction.repay a n) = IsWallet rt a.borrower
  IsSigned (Instruction.liquidate a n) = IsWallet rt a.liquidator
  IsSigned (Instruction.private_deposit_collateral a k n e) = IsWallet rt a.depositor
  IsSigned (Instruction.execute_private_liquidation a n) = IsWallet rt a.liquidator
  IsSigned i = Unit {0}

  abbrev pub AllSigned : List (Clock × Instruction Out) → Type 0
  AllSigned [] = Unit {0}
  AllSigned ((clock, i) ∷ is) = IsSigned i × AllSigned is

module _ {T Q Out : Type 0} (rt : Runtime T) (ar : Arcium Q Out) (l : Ledger T)
    (laws : TokenLaws rt l) (addresses : AddressLaws rt) where
  abbrev Stays : Chain T Q → Type 0
  Stays c = IsBacked rt l c.world

  module _ (c : Chain T Q) (all : Stays c) where
    publicly-Stays :
        {m : Result (World T)} → Ensures (IsBacked rt l) m → Ensures Stays (publicly m c)
    publicly-Stays {m} e = step m λ w h. returns (e.holds w h)

    apart-Stays : {m : Result (Chain T Q)} → Ensures (λ c'. c'.world ≡ c.world) m → Ensures Stays m
    apart-Stays e = follows e λ c' same. subst (IsBacked rt l) (sym same) all

    process-Stays :
        (clock : Clock) (i : Instruction Out)
        → IsSigned rt i
        → Ensures Stays (process rt ar clock i c)
    unfolding process
    process-Stays clock (Instruction.initialize_market a args) s =
        publicly-Stays
          (follows (initialize_market-SamePools rt c.world a args) (same-IsBacked rt c.world l all))
    process-Stays clock (Instruction.add_reserve a args) s =
        publicly-Stays (add_reserve-IsBacked rt l laws addresses a args clock c.world all)
    process-Stays clock (Instruction.deposit a n) s =
        publicly-Stays (deposit-IsBacked rt l laws addresses n clock c.world all a s)
    process-Stays clock (Instruction.deposit_collateral a n) s =
        publicly-Stays (deposit_collateral-IsBacked rt l laws addresses n clock c.world all a s)
    process-Stays clock (Instruction.withdraw_collateral a n) s =
        publicly-Stays (withdraw_collateral-IsBacked rt l laws addresses n clock c.world all a)
    process-Stays clock (Instruction.init_obligation a) s =
        publicly-Stays
          (follows (init_obligation-SamePools rt c.world a) (same-IsBacked rt c.world l all))
    process-Stays clock (Instruction.borrow a n) s =
        publicly-Stays (borrow-IsBacked rt l laws addresses n clock c.world all a)
    process-Stays clock (Instruction.repay a n) s =
        publicly-Stays (repay-IsBacked rt l laws addresses n clock c.world all a s)
    process-Stays clock (Instruction.withdraw a n) s =
        publicly-Stays (withdraw-IsBacked rt l laws addresses n clock c.world all a s)
    process-Stays clock (Instruction.refresh_reserve a u) s =
        publicly-Stays (refresh_reserve-IsBacked rt c.world l all a u clock)
    process-Stays clock (Instruction.refresh_obligation a) s =
        publicly-Stays (
          follows (refresh_obligation-SamePools rt c.world a clock)
            (same-IsBacked rt c.world l all))
    process-Stays clock (Instruction.liquidate a n) s =
        publicly-Stays (liquidate-IsBacked rt l laws addresses n clock a c.world all s)
    process-Stays clock (Instruction.set_pause a b) s =
        publicly-Stays
          (follows (set_pause-SamePools rt c.world a b) (same-IsBacked rt c.world l all))
    process-Stays clock (Instruction.update_reserve_config a args) s =
        publicly-Stays (update_reserve_config-IsBacked rt c.world l all a args)
    process-Stays clock (Instruction.update_market_authority a k) s = publicly-Stays (
        follows (update_market_authority-SamePools rt c.world a k) (same-IsBacked rt c.world l all))
    process-Stays clock (Instruction.init_position_comp_def a) s =
        apart-Stays (init_position_comp_def-SameWorld rt ar c a)
    process-Stays clock (Instruction.add_collateral_comp_def a) s =
        apart-Stays (add_collateral_comp_def-SameWorld rt ar c a)
    process-Stays clock (Instruction.add_borrow_comp_def a) s =
        apart-Stays (add_borrow_comp_def-SameWorld rt ar c a)
    process-Stays clock (Instruction.check_health_comp_def a) s =
        apart-Stays (check_health_comp_def-SameWorld rt ar c a)
    process-Stays clock (Instruction.init_private_obligation a k) s =
        apart-Stays (init_private_obligation-SameWorld rt ar c a k)
    process-Stays clock (Instruction.private_deposit_collateral a k n e) s =
        private_deposit_collateral-IsBacked rt ar l laws n k e c all a s
    process-Stays clock (Instruction.private_borrow a k n e) s =
        private_borrow-IsBacked rt ar l laws n k e c all addresses a clock
    process-Stays clock (Instruction.private_check_liquidatable a k i) s =
        apart-Stays (private_check_liquidatable-SameWorld rt ar c a k i)
    process-Stays clock (Instruction.execute_private_liquidation a n) s =
        execute_private_liquidation-IsBacked rt l laws addresses n clock a c all s
    process-Stays clock (Instruction.init_position_v2_callback a out) s =
        apart-Stays (init_position_v2_callback-SameWorld rt ar c a out)
    process-Stays clock (Instruction.add_collateral_v2_callback a out) s =
        apart-Stays (add_collateral_v2_callback-SameWorld rt ar c a out)
    process-Stays clock (Instruction.add_borrow_v2_callback a out) s =
        apart-Stays (add_borrow_v2_callback-SameWorld rt ar c a out)
    process-Stays clock (Instruction.check_health_v2_callback a out) s =
        apart-Stays (check_health_v2_callback-SameWorld rt ar c a out)

  outcome-Stays :
      (m : Result (Chain T Q)) (c : Chain T Q) → Stays c → Ensures Stays m → Stays (unwrap_or m c)
  outcome-Stays (ok c') c s e = e.holds c' refl
  outcome-Stays (err x) c s e = s

  -- Every pool stays solvent. Where each call of the token program has its documented effect, the
  -- vaults, mints and collateral accounts of reserves have distinct addresses, and whoever signs
  -- for tokens is no program address: if at the start every stored reserve's vault holds at least
  -- the amount that the reserve records as available and belongs to a program address without a
  -- delegate, and the cTokens in circulation are as many as the reserve records, then so it is
  -- after any run of the program's instructions, in any order and whether each succeeds or fails.
  pub run-IsBacked :
      (is : List (Clock × Instruction Out)) (c : Chain T Q)
      → AllSigned rt is
      → IsBacked rt l c.world
      → IsBacked rt l (run rt ar is c).world
  unfolding run
  run-IsBacked [] c s all = all
  run-IsBacked ((clock, i) ∷ is) c (s, ss) all =
      run-IsBacked is (unwrap_or (process rt ar clock i c) c) ss
        (outcome-Stays (process rt ar clock i c) c all (process-Stays c all clock i s))
