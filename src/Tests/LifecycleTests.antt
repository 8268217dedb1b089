-- ===== src/Tests/LifecycleTests.antt =====
-- The life of a confidential record, and of its market: the theorems at concrete outputs.
use veil_vault.Base.{
  ℕ, ◌+◌, ◌≡◌, refl, true, false, Option, none, some, List, [], ◌∷◌, ok, unwrap_or,
}
use veil_vault.Constants.{Pubkey}
use veil_vault.Runtime.{Clock, Seed, Runtime, text, key}
use veil_vault.Arcium.{QueueAccounts, queue_accounts_check, callback_accounts_check}
use veil_vault.Private.{Chain, private_default, store_encrypted}
use veil_vault.Private.Setup.{
  InitPrivateObligationAccounts, or_new, reset, store_initial, init_private_obligation,
  init_private_obligation_check, init_position_v2_callback,
}
use veil_vault.Private.Check.{
  PrivateCheckLiquidatableAccounts, HealthInputs, flag, private_check_liquidatable,
  private_check_liquidatable_check, check_health_v2_callback,
}
use veil_vault.Program.{Instruction, process}
use veil_vault.Program.Run.{run}
use veil_vault.Program.Changes.{process-Changes}
use veil_vault.Program.Changes.Defs.{Changes}
use veil_vault.Program.Gated.{Solicited, run-IsGated}
use veil_vault.Program.Gated.Steps.{IsGated}
use veil_vault.Program.Handover.{Halts, Strands, set_pause-Halts, update_market_authority-Strands}
use veil_vault.Tests.AdminTests.{chain, owner, before, paused, pause_run, handed_over, handover_run}
use veil_vault.Tests.PrivateTests.{cluster, now, arrived, start}

abbrev found : Chain Unit Unit
found =
    unwrap_or (process chain cluster now (Instruction.check_health_v2_callback arrived 0) start)
      start

found_run :
    process chain cluster now (Instruction.check_health_v2_callback arrived 0) start ≡ ok found
unfolding process check_health_v2_callback callback_accounts_check flag
found_run = refl

process-Changes_example :
    Changes chain cluster (Instruction.check_health_v2_callback arrived 0) 300 start found
process-Changes_example =
    process-Changes chain cluster now (Instruction.check_health_v2_callback arrived 0) start found
      300 refl found_run

set_pause-Halts_example : Halts chain cluster (record start { world = paused }) 109
set_pause-Halts_example =
    set_pause-Halts chain cluster owner before paused (record start { world = paused }) pause_run
      refl

update_market_authority-Strands_example :
    Strands chain cluster (record start { world = handed_over }) 109
update_market_authority-Strands_example =
    update_market_authority-Strands chain cluster owner 10 before handed_over
      (record start { world = handed_over }) (λ bump. refl) handover_run refl

-- A record of owner 9 has the address 300.
abbrev address : List Seed → Option Pubkey
address (text s ∷ key k ∷ []) = some (100 + k)
address _ = some 300

abbrev program : Runtime Unit
program = record chain { create_program_address = λ seeds bump. address seeds }

abbrev queue : QueueAccounts
queue = record {
  sign_pda_account = 81;
  mxe_account = 82;
  mempool_account = 83;
  executing_pool = 84;
  computation_account = 85;
  comp_def_account = 80;
  cluster_account = 86;
  pool_account = 87;
  clock_account = 88;
}

abbrev opening : InitPrivateObligationAccounts
opening = record { payer = 9; queue = queue; lending_market = 109; private_obligation = 300 }

abbrev checking : PrivateCheckLiquidatableAccounts
checking = record {
  liquidator = 10;
  queue = queue;
  lending_market = 109;
  obligation_owner = 9;
  private_obligation = 300;
}

abbrev inputs : HealthInputs
inputs = record {
  exchange_rate_bps = 10_000;
  collateral_price_cents = 100;
  borrow_price_cents = 100;
  ltv_bps = 8_000;
}

-- A record is opened and gets its first position, and a health check finds it unhealthy.
abbrev life : List (Clock × Instruction ℕ)
life =
    (now, Instruction.init_private_obligation opening 1)
    ∷ (now, Instruction.init_position_v2_callback arrived 5)
    ∷ (now, Instruction.private_check_liquidatable checking 2 inputs)
    ∷ (now, Instruction.check_health_v2_callback arrived 0)
    ∷ []

abbrev empty : Chain Unit Unit
empty = record start { private_obligations = λ k. none }

life-run :
    or_new ((run program cluster life empty).private_obligations 300) ≡ record private_default {
      bump = 255;
      owner = 9;
      lending_market = 109;
      enc_state = (5, 5);
      nonce = 5;
      is_initialized = true;
      is_liquidatable = true;
    }
unfolding run process init_private_obligation init_private_obligation_check reset
    init_position_v2_callback store_initial store_encrypted private_check_liquidatable
    private_check_liquidatable_check check_health_v2_callback flag queue_accounts_check
    callback_accounts_check
life-run = refl

life-Solicited : Solicited program cluster 300 false life empty
unfolding process init_private_obligation init_private_obligation_check reset
    init_position_v2_callback store_initial store_encrypted private_check_liquidatable
    private_check_liquidatable_check queue_accounts_check callback_accounts_check
life-Solicited = (λ e a. absurd cc, (λ e a. absurd cc, (λ e a. absurd cc, (λ e a. refl, tt))))

run-IsGated_example :
    IsGated false (or_new ((run program cluster life empty).private_obligations 300))
run-IsGated_example = run-IsGated program cluster 300 life empty refl life-Solicited
