-- ===== src/Tests/LockedTests.antt =====
-- cTokens locked in a position, on the chain of the test of vaults.
use mathlib.Core.Path.{subst}
use veil_vault.Base.{
  ℕ, ◌≡◌, ◌≢◌, refl, none, some, Option, List, [], ◌∷◌, arith, ◌==◌, if◌then◌else◌, position,
}
use veil_vault.Constants.{Pubkey}
use veil_vault.Obligation
use veil_vault.Obligation.{
  Obligation, InitObligationParams, find_or_add_deposit, obligation_default,
}
use veil_vault.Obligation.Valid.{init-IsValid}
use veil_vault.Runtime.{Clock, stored, text, key}
use veil_vault.Instructions.DepositCollateral.{
  DepositCollateralAccounts, deposit_collateral, deposit_collateral_check,
}
use veil_vault.Private.{Chain}
use veil_vault.Program.{Instruction, process}
use veil_vault.Program.Run.{run}
use veil_vault.Program.Sound.{IsSound, put_reserve-Sound, put_obligation-Sound}
use veil_vault.Program.Backing.Run.{AllSigned}
use veil_vault.Program.Locked.Defs.{IsSecured, Secured, locked_at}
use veil_vault.Program.Locked.Opening.{total_zero}
use veil_vault.Program.Locked.Others.{new-SameLocks}
use veil_vault.Program.Locked.Run.{run-IsSecured}
use veil_vault.Tests.PrivateTests.{cluster, empty-Sound}
use veil_vault.Tests.ConfigTests.{curved-IsValid}
use veil_vault.Market.{is_paused}
use veil_vault.Reserve.Config.{is_active}
use veil_vault.Tests.TokenProgram.{Books, bank, ledger, bank-laws, bank-addresses}
use veil_vault.Tests.VaultTests.{before, books, slot_100, user-IsWallet, lent}

abbrev params : InitObligationParams
params = record { bump = 255; owner = 7; lending_market = 9_103 }

abbrev positions : Pubkey → Option Obligation
positions = stored (λ k. none) 507 (Obligation.init params obligation_default)

-- User 7 holds 2000 cTokens, and 100 are in the account of the reserve.
abbrev holding : Chain Books Unit
holding = record before {
  world = record (before.world) {
    obligations = positions;
    tokens = record books {
      balances = λ k. if k == 71 then 2_000 else if k == 504_102 then 100 else 0;
      owners = λ k. if k == 71 then some 7 else if k == 504_102 then some 9_103 else none;
    };
  };
}

abbrev locking : DepositCollateralAccounts
locking = record {
  depositor = 7;
  lending_market = 9_103;
  reserve = 504;
  reserve_mint = 4;
  collateral_mint = 504_101;
  user_collateral_account = 71;
  collateral_supply_vault = 504_102;
  obligation = 507;
}

abbrev history : List (Clock × Instruction ℕ)
history =
    (slot_100, Instruction.deposit_collateral locking 400)
    ∷ (slot_100, Instruction.deposit_collateral locking 300)
    ∷ []

history-AllSigned : AllSigned bank history
history-AllSigned = (user-IsWallet, (user-IsWallet, tt))

none_locked : (k : Pubkey) → k ≢ 0 → (j : Pubkey) → locked_at positions k j ≡ 0
none_locked k ne j =
    (new-SameLocks (λ x. none) 507 _ refl
        λ r. ((init-IsValid params obligation_default).1 r).0).same
      k ne j

holding-IsSound : IsSound holding.world
holding-IsSound =
    put_obligation-Sound (put_reserve-Sound empty-Sound 504 lent (omega arith) curved-IsValid) 507
      (Obligation.init params obligation_default) ((init-IsValid params obligation_default).0)

holding-IsSecured : IsSecured bank ledger holding.world
holding-IsSecured = record {
  secured = λ k r e.
      let found : 504 ≡ k = ground arith in
      subst (Secured bank ledger holding.world.tokens positions) found (record {
        enough = λ n.
            let sum = total_zero (locked_at positions 504) (none_locked 504 (omega arith)) n in
            omega arith;
        guard = record {
          keeper = 9_103;
          seeds = text "lending_market" ∷ key 9 ∷ [];
          bump = 255;
          is_program = refl;
          owned = refl;
          undelegated = refl;
        };
      });
  unopened = λ k ne e j. none_locked k ne j;
}

run-IsSecured_example : IsSecured bank ledger (run bank cluster history holding).world
run-IsSecured_example =
    run-IsSecured bank cluster ledger bank-laws bank-addresses (λ seeds. omega arith) history
      holding history-AllSigned holding-IsSound holding-IsSecured

-- Both moves succeed.
both_locked : (run bank cluster history holding).world.tokens.balances 504_102 ≡ 800
unfolding run process deposit_collateral deposit_collateral_check is_paused is_active
    Obligation.init Obligation.deposit find_or_add_deposit position
both_locked = refl
