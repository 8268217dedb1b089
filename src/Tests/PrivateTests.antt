-- ===== src/Tests/PrivateTests.antt =====
-- The confidential instructions and the runs of the program on a chain with one market.
use veil_vault.Base.{
  ℕ, ◌-◌, ◌*◌, ◌≡◌, ◌≢◌, ◌≤◌, refl, true, none, some, List, [], ◌∷◌, ok, arith, position, unwrap_or,
  ltb,
}
use veil_vault.Int.{pos}
use veil_vault.Constants.{rate_scale}
use veil_vault.LastUpdate.{is_slot_stale}
use veil_vault.Market.{is_paused}
use veil_vault.Reserve
use veil_vault.Reserve.{Reserve}
use veil_vault.Reserve.Config.{is_active}
use veil_vault.Reserve.Liquidity.{total_supply}
use veil_vault.Reserve.Liquidity
use veil_vault.Reserve.Completion.{HasRoom, accrue_interest_total}
use veil_vault.Obligation
use veil_vault.Obligation.{
  Obligation, obligation_default, find_borrow, find_deposit, accrue_slot, health_factor, is_healthy,
}
use veil_vault.Obligation.Valid.{owed}
use veil_vault.Obligation.Health.{seen_collateral}
use veil_vault.Runtime.{Clock, Runtime, stored}
use veil_vault.Instructions.Liquidate.{
  ready_reserve, withdraw_side, repay_capped, ctokens_for, seize_capped, liquidate_position,
}
use veil_vault.Arcium.{Arcium}
use veil_vault.Private.{PrivateObligation, Chain, private_default}
use veil_vault.Private.Setup.{CallbackContext}
use veil_vault.Private.Borrow.{oracle_is_set, private_borrow_reserve, private_borrow_obligation}
use veil_vault.Private.Borrow.Oracle.{unpriced_loan}
use veil_vault.Private.Liquidate.{
  ExecutePrivateLiquidationAccounts, private_liquidate_obligation,
  execute_private_liquidation_check, execute_private_liquidation,
}
use veil_vault.Private.Liquidate.Flag.{execute-once, execute_check-any_obligation}
use veil_vault.Program.{Instruction}
use veil_vault.Program.Sound.{Sound, IsSound, put_reserve-Sound}
use veil_vault.Program.Lasting.{AllDerived, HeldBy}
use veil_vault.Program.Run.{run, run-IsSound, run-AllDerived, run-HeldBy}
use veil_vault.Tests.ReserveTests.{curved, tokens, pool}
use veil_vault.Tests.ConfigTests.{curved-IsValid}
use veil_vault.Tests.ObligationTests.{user}
use veil_vault.Tests.AdminTests.{chain, market, market_of, owner, updating, limited}

-- A cluster whose outputs are taken as they are: a number is a ciphertext, a new nonce and a flag.
abbrev pub cluster : Arcium Unit ℕ
cluster = record {
  comp_def_offset = λ name. 1;
  comp_def_pda = λ offset. 80;
  sign_pda = (81, 254);
  mxe_pda = 82;
  mempool_pda = λ q. some 83;
  executing_pool_pda = λ q. some 84;
  computation_pda = λ offset q. some 85;
  cluster_pda = λ q. some 86;
  fee_pool_address = 87;
  clock_address = 88;
  lut_pda = λ q. 89;
  lut_program_id = 90;
  instructions_id = 91;
  queue_computation = λ computation q. some q;
  init_comp_def = λ circuit source a q. some q;
  validate_callback = λ circuit a q. true;
  verify_encrypted = λ k j q out. some (record { ciphertexts = (out, out); nonce = out });
  verify_bool = λ k j q out. some (ltb 0 out);
}

abbrev pub now : Clock
now = record { slot = 200; unix_timestamp = pos 1_000_000 }

abbrev pub arrived : CallbackContext
arrived = record {
  callback = record {
    comp_def_account = 80;
    mxe_account = 82;
    computation_account = 85;
    cluster_account = 86;
    instructions_sysvar = 91;
  };
  private_obligation = 300;
}

abbrev confidential : PrivateObligation
confidential = record private_default {
  bump = 255;
  owner = 9;
  lending_market = 109;
  is_liquidatable = true;
  is_initialized = true;
}

abbrev pub start : Chain Unit Unit
start = record {
  world = market_of market;
  private_obligations = stored (λ k. none) 300 confidential;
  sign_bump = 254;
  arcium = tt;
  events = [];
}

pub empty-Sound : Sound (λ k. none) (λ k. none)
empty-Sound = record {
  no_default = refl;
  configs = λ k r h. absurd cc;
  positions = λ k o h. absurd cc;
}

start-IsSound : IsSound start.world
start-IsSound =
    put_reserve-Sound empty-Sound 504 (record pool { lending_market = 109 }) (omega arith)
      curved-IsValid

-- The owner pauses the market and changes a reserve, and a health check comes back.
abbrev history : List (Clock × Instruction ℕ)
history =
    (now, Instruction.set_pause owner true)
    ∷ (now, Instruction.update_reserve_config updating limited)
    ∷ (now, Instruction.check_health_v2_callback arrived 0)
    ∷ []

run-IsSound_example : IsSound (run chain cluster history start).world
run-IsSound_example = run-IsSound chain cluster (λ seeds. omega arith) history start start-IsSound

start-AllDerived : AllDerived chain start.private_obligations
start-AllDerived = record { derived = λ k po h. ground arith }

run-AllDerived_example : AllDerived chain (run chain cluster history start).private_obligations
run-AllDerived_example =
    run-AllDerived chain cluster (λ seeds. omega arith) history start start-IsSound start-AllDerived

run-HeldBy_example : HeldBy 300 9 109 (run chain cluster history start).private_obligations
run-HeldBy_example =
    run-HeldBy chain cluster (λ seeds. omega arith) history start start-IsSound 300 9 109
      (confidential, refl, refl, refl, refl)

abbrev unpriced : Reserve
unpriced = record pool {
  config = record curved { pyth_oracle = 0 };
  liquidity = record tokens { market_price_sf = 0 };
}

unpriced_active : is_active unpriced.config ≡ true
unfolding is_active
unpriced_active = refl

accrual_run : Reserve.accrue_interest 100 unpriced ≡ ok unpriced
unfolding Reserve.accrue_interest
accrual_run = refl

unpriced_loan_example :
    (r' : Reserve) × (o' : Obligation) × (private_borrow_reserve 100 100 unpriced ≡ ok r')
    × (private_borrow_obligation
          (oracle_is_set unpriced)
          5
          100
          (r'.liquidity.cumulative_borrow_rate_sf)
          (r'.liquidity.market_price_sf)
          100
          (Obligation.init
            (record { bump = 254; owner = 9; lending_market = 109 })
            obligation_default)
        ≡ ok o')
    × (r'.liquidity.available_amount ≡ unpriced.liquidity.available_amount - 100)
    × (owed o' 5 ≡ 100 * rate_scale)
    × (seen_collateral o' ≡ 0)
unpriced_loan_example =
    unpriced_loan (record { bump = 254; owner = 9; lending_market = 109 }) obligation_default
      unpriced unpriced 5 100 100 (omega arith) (omega arith) (omega arith) unpriced_active refl
      refl (omega arith) accrual_run (omega arith) (omega arith) (omega arith)

-- Half of the debt of `user` to reserve 6 is repaid, for cTokens of reserve 5.
abbrev bank : Runtime Unit
bank = record chain { token_mint = λ t k. some 300; token_owner = λ t k. some 10 }

abbrev executing : ExecutePrivateLiquidationAccounts
executing = record {
  liquidator = 10;
  lending_market = 109;
  obligation_owner = 9;
  private_obligation = 509;
  obligation = 600;
  repay_reserve = 6;
  repay_reserve_mint = 300;
  repay_liquidity_vault = 300;
  liquidator_repay_account = 601;
  withdraw_reserve = 5;
  withdraw_collateral_mint = 300;
  collateral_supply_vault = 300;
  liquidator_collateral_account = 602;
}

abbrev current : Reserve
current = record pool { lending_market = 109; last_update_slot = 200 }

abbrev flagged : Chain Unit Unit
flagged = record start {
  world = record (start.world) {
    reserves = stored (stored (λ k. none) 5 current) 6 current;
    obligations = stored (λ k. none) 600 (record user { lending_market = 109 });
  };
  private_obligations = stored (λ k. none) 509 confidential;
}

abbrev executed : Chain Unit Unit
executed = unwrap_or (execute_private_liquidation bank executing 500 now flagged) flagged

execute_run : execute_private_liquidation bank executing 500 now flagged ≡ ok executed
unfolding execute_private_liquidation execute_private_liquidation_check is_paused ready_reserve
    is_active Reserve.accrue_interest withdraw_side total_supply private_liquidate_obligation
    is_slot_stale liquidate_position find_borrow find_deposit position Obligation.accrue_interest
    accrue_slot repay_capped ctokens_for seize_capped Obligation.repay Obligation.withdraw
    Reserve.repay Liquidity.repay
execute_run = refl

execute-once_example : execute_private_liquidation bank executing 100 now executed ≢ ok flagged
execute-once_example =
    (execute-once bank executing executing 500 100 now now flagged executed flagged execute_run
      refl).1

execute_check-any_obligation_example :
    execute_private_liquidation_check bank
      (record executing { obligation = 700 })
      market
      confidential
      (record user { owner = 11 })
      current
      current
      tt
    ≡ execute_private_liquidation_check bank executing market confidential user current current tt
execute_check-any_obligation_example =
    execute_check-any_obligation bank executing 700 market confidential user
      (record user { owner = 11 }) current current tt refl

has_room : HasRoom (current.liquidity)
has_room = record {
  covered = omega arith;
  available = omega arith;
  debt = omega arith;
  index = omega arith;
}

accrue_interest_total_example :
    (r' : Reserve) × (Reserve.accrue_interest 50_000_000 current ≡ ok r')
    × (50_000_000 ≤ r'.last_update_slot)
accrue_interest_total_example =
    accrue_interest_total 50_000_000 current curved-IsValid (omega arith) has_room (omega arith)
