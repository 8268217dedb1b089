-- ===== src/Tests/VaultTests.antt =====
-- A deposit and a withdrawal on a chain with a small token program.
use veil_vault.Base.{
  ◌-◌, ◌and_then◌, ℕ, ◌≡◌, refl, none, some, List, [], ◌∷◌, arith, ◌==◌, if◌then◌else◌,
}
use veil_vault.Int.{pos}
use veil_vault.Market.{LendingMarket, market_default, is_paused}
use veil_vault.Reserve.{
  Reserve, accrue_interest, deposit_liquidity, redeem_collateral, collateral_exchange_rate,
}
use veil_vault.Reserve.Config.{is_active}
use veil_vault.Reserve.Liquidity
use veil_vault.Reserve.Liquidity.{total_supply}
use veil_vault.Reserve.Collateral
use veil_vault.Reserve.Collateral.{exchange_rate, liquidity_to_collateral, collateral_to_liquidity}
use veil_vault.Runtime.{Runtime, Clock, stored, text, key}
use veil_vault.Instructions.Deposit.{DepositAccounts, deposit, deposit_check, deposit_reserve}
use veil_vault.Instructions.Withdraw.{WithdrawAccounts, withdraw, withdraw_check, withdraw_reserve}
use veil_vault.Tokens.{IsWallet}
use veil_vault.Private.{Chain}
use veil_vault.Program.{Instruction, process}
use veil_vault.Program.Run.{run}
use veil_vault.Program.Backing.Worlds.{IsBacked, AllBacked, written-AllBacked}
use veil_vault.Program.Backing.Run.{AllSigned, run-IsBacked}
use veil_vault.Tests.ReserveTests.{pool}
use veil_vault.Tests.PrivateTests.{cluster}
use veil_vault.Tests.TokenProgram.{Books, bank, ledger, bank-laws, bank-addresses}

abbrev pub market : LendingMarket
market = record market_default { version = 1; bump = 255; owner = 9 }

abbrev pub lent : Reserve
lent = record pool { lending_market = 9_103 }

-- User 7 holds 5000 tokens, the vault 500 more than the reserve records.
abbrev pub books : Books
books = record {
  balances = λ k. if k == 70 then 5_000 else if k == 504_100 then 6_500 else 0;
  owners = λ k.
      if k == 70
      then some 7
      else if k == 71
      then some 7
      else if k == 504_100
      then some 9_103
      else none;
  account_mints = λ k.
      if k == 70
      then some 4
      else if k == 71
      then some 504_101
      else if k == 504_100
      then some 4
      else none;
  supplies = λ k. if k == 504_101 then 5_000 else 0;
}

abbrev pub before : Chain Books Unit
before = record {
  world = record {
    markets = stored (λ k. none) 9_103 market;
    reserves = stored (λ k. none) 504 lent;
    obligations = λ k. none;
    tokens = books;
  };
  private_obligations = λ k. none;
  sign_bump = 0;
  arcium = tt;
  events = [];
}

abbrev depositing : DepositAccounts
depositing = record {
  depositor = 7;
  lending_market = 9_103;
  reserve = 504;
  reserve_mint = 4;
  liquidity_vault = 504_100;
  collateral_mint = 504_101;
  user_token_account = 70;
  user_collateral_account = 71;
}

abbrev withdrawing : WithdrawAccounts
withdrawing = record {
  depositor = 7;
  lending_market = 9_103;
  reserve = 504;
  reserve_mint = 4;
  liquidity_vault = 504_100;
  collateral_mint = 504_101;
  user_collateral_account = 71;
  user_token_account = 70;
}

abbrev pub slot_100 : Clock
slot_100 = record { slot = 100; unix_timestamp = pos 1_000_000 }

abbrev moves : List (Clock × Instruction ℕ)
moves =
    (slot_100, Instruction.deposit depositing 1_000)
    ∷ (slot_100, Instruction.withdraw withdrawing 400)
    ∷ []

pub user-IsWallet : IsWallet bank 7
user-IsWallet = record { off_program = λ seeds bump e. ground arith }

moves-AllSigned : AllSigned bank moves
moves-AllSigned = (user-IsWallet, (user-IsWallet, tt))

none-AllBacked : AllBacked bank ledger books (λ k. none)
none-AllBacked = record { backed = λ k r h. ground arith }

before-IsBacked : IsBacked bank ledger before.world
before-IsBacked =
    written-AllBacked none-AllBacked 504 lent
      (record {
        covered = omega arith;
        recorded = refl;
        guard = record {
          keeper = 9_103;
          seeds = text "lending_market" ∷ key 9 ∷ [];
          bump = 255;
          is_program = refl;
          owned = refl;
          undelegated = refl;
        };
      })
      λ j r ne b. b

run-IsBacked_example : IsBacked bank ledger (run bank cluster moves before).world
run-IsBacked_example =
    run-IsBacked bank cluster ledger bank-laws bank-addresses moves before moves-AllSigned
      before-IsBacked

-- Both moves succeed: 1000 tokens in for 500 cTokens, of which 400 go out again.
both_succeed :
    ((run bank cluster moves before).world.tokens.balances 504_100 ≡ 6_701)
    × ((run bank cluster moves before).world.tokens.supplies 504_101 ≡ 5_100)
unfolding run process deposit withdraw deposit_check withdraw_check deposit_reserve withdraw_reserve
    is_active is_paused accrue_interest deposit_liquidity redeem_collateral total_supply
    Liquidity.deposit Liquidity.withdraw Collateral.mint Collateral.burn liquidity_to_collateral
    collateral_to_liquidity exchange_rate collateral_exchange_rate
both_succeed = (refl, refl)

-- A token program that keeps 10 tokens of every transfer.
abbrev charging : Runtime Books
charging = record bank {
  transfer_checked = λ from mint to authority n decimals b.
      bank.transfer_checked from mint to authority n decimals b and_then λ b'.
      some (record b' { balances = λ k. if k == to then b'.balances to - 10 else b'.balances k });
}

abbrev tight : Chain Books Unit
tight = record before {
  world = record (before.world) {
    tokens = record books {
      balances = λ k. if k == 70 then 5_000 else if k == 504_100 then 6_000 else 0;
    };
  };
}

abbrev charged : Chain Books Unit
charged = run charging cluster ((slot_100, Instruction.deposit depositing 1_000) ∷ []) tight

-- The vault then has 6990 tokens, and the reserve records 7000.
charged_run :
    (charged.world.tokens.balances 504_100 ≡ 6_990)
    × (charged.world.reserves 504
        ≡ some (record lent {
          liquidity = record (lent.liquidity) { available_amount = 7_000 };
          collateral = record (lent.collateral) { mint_total_supply = 5_500 };
        }))
unfolding run process deposit deposit_check deposit_reserve is_active is_paused accrue_interest
    deposit_liquidity total_supply Liquidity.deposit Collateral.mint liquidity_to_collateral
    exchange_rate collateral_exchange_rate
charged_run = (refl, refl)
