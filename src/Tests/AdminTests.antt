-- ===== src/Tests/AdminTests.antt =====
-- The owner's instructions on a chain with one market, one reserve and a simple rule for program
-- addresses.
use veil_vault.Base.{
  ◌+◌, ◌≡◌, refl, true, Option, none, some, List, [], ◌∷◌, ok, ◌==◌, if◌then◌else◌,
}
use veil_vault.Constants.{Pubkey}
use veil_vault.Market.{LendingMarket, market_default, set_emergency_pause}
use veil_vault.Reserve.{Reserve}
use veil_vault.Reserve.Config
use veil_vault.Reserve.Config.{InitReserveConfigParams, validate}
use veil_vault.Reserve.Config.Init.{IsValid}
use veil_vault.Reserve.Liquidity
use veil_vault.Reserve.Collateral
use veil_vault.Runtime.{Runtime, World, Seed, text, key, put_market, put_reserve}
use veil_vault.Instructions.Admin.{
  OwnerAccounts, UpdateReserveConfigAccounts, AddReserveAccounts, check_owner, set_pause,
  update_market_authority, update_reserve_config, new_reserve,
}
use veil_vault.Instructions.Admin.Access.{update_reserve_config-IsValid}
use veil_vault.Tests.ReserveTests.{curved, pool}
use veil_vault.Tests.ConfigTests.{params}

-- A market of owner `k` has the address 100 + k, a reserve of mint `k` the address 500 + k.
abbrev address : List Seed → Option Pubkey
address (text s ∷ key k ∷ []) = some (100 + k)
address (text s ∷ key m ∷ key k ∷ []) = some (500 + k)
address _ = none

abbrev pub chain : Runtime Unit
chain = record {
  find_program_address = λ seeds. (300, 255);
  create_program_address = λ seeds bump. address seeds;
  token_mint = λ t k. none;
  token_owner = λ t k. none;
  mint_decimals = λ t k. some 6;
  transfer_checked = λ from mint to authority amount decimals t. some t;
  mint_to = λ mint to authority amount t. some t;
  burn = λ mint from authority amount t. some t;
  init_token_account = λ account mint authority t. some t;
  init_mint = λ mint authority decimals t. some t;
}

abbrev pub market : LendingMarket
market = record market_default { version = 1; bump = 255; owner = 9 }

abbrev pub market_of : LendingMarket → World Unit
market_of m = record {
  markets = λ k. if k == 109 then some m else none;
  reserves = λ k. if k == 504 then some (record pool { lending_market = 109 }) else none;
  obligations = λ k. none;
  tokens = tt;
}

abbrev pub owner : OwnerAccounts
owner = record { owner = 9; lending_market = 109 }

abbrev pub before : World Unit
before = market_of market

abbrev pub paused : World Unit
paused = put_market 109 (record market { emergency_pause = true }) before

pub pause_run : set_pause chain owner true before ≡ ok paused
unfolding set_pause check_owner set_emergency_pause
pause_run = refl

abbrev pub handed_over : World Unit
handed_over = put_market 109 (record market { owner = 10 }) before

pub handover_run : update_market_authority chain owner 10 before ≡ ok handed_over
unfolding update_market_authority check_owner
handover_run = refl

abbrev pub updating : UpdateReserveConfigAccounts
updating = record { owner = 9; lending_market = 109; reserve_mint = 4; reserve = 504 }

abbrev pub limited : InitReserveConfigParams
limited = record params { deposit_limit = 5_000 }

abbrev reconfigured : World Unit
reconfigured =
    put_reserve 504
      (record pool { lending_market = 109; config = record curved { deposit_limit = 5_000 } })
      before

config_run : update_reserve_config chain updating limited before ≡ ok reconfigured
unfolding update_reserve_config check_owner Config.init validate
config_run = refl

update_reserve_config-IsValid_example :
    (m : LendingMarket) × (r r' : Reserve) × (before.markets 109 ≡ some m)
    × (m.owner ≡ 9)
    × (before.reserves 504 ≡ some r)
    × (r.lending_market ≡ 109)
    × IsValid r'.config
    × (r' ≡ record r { config = r'.config })
    × (reconfigured ≡ put_reserve 504 r' before)
update_reserve_config-IsValid_example =
    update_reserve_config-IsValid chain updating limited before reconfigured config_run

abbrev adding : AddReserveAccounts
adding = record {
  owner = 9;
  lending_market = 109;
  reserve = 300;
  reserve_mint = 4;
  liquidity_vault = 300;
  fee_vault = 301;
  collateral_mint = 302;
  collateral_supply_vault = 303;
}

abbrev opened : Reserve
opened = record {
  liquidity = record Liquidity.liquidity_default { mint = 4; supply_vault = 300; fee_vault = 301 };
  config = curved;
  collateral = record { mint_pda = 302; mint_total_supply = 0; supply_vault_pda = 303 };
  version = 1;
  last_update_slot = 200;
  lending_market = 109;
  bump = 255;
}

open_run : new_reserve chain adding params 200 ≡ ok opened
unfolding new_reserve Config.init validate Liquidity.init Collateral.init
open_run = refl
