-- ===== src/Instructions/Admin.antt =====
-- The instructions that create accounts and those of the market's owner:
-- programs/veilvault/src/instructions/{initialize_market, add_reserve, init_obligation, set_pause,
-- update_reserve_config, update_market_authority}.rs. `init` creates the account at a program
-- address, which must be unused; rent and the payer's lamports are not modelled.
pub mod Access
use veil_vault.Base.{
  ℕ, Bool, not, Option, none, some, List, [], ◌∷◌, Constraint, Error, LendingError, Result, ok, err,
  require, constrain, or_failed, or_missing, ◌>>=◌, ◌>>◌, leb, ◌==◌, if◌then◌else◌,
}
use veil_vault.Constants.{Pubkey, max_protocol_fee_bps}
use veil_vault.Market
use veil_vault.Market.{LendingMarket, market_default, set_emergency_pause, is_paused}
use veil_vault.Reserve.{Reserve, reserve_version}
use veil_vault.Reserve.Config
use veil_vault.Reserve.Config.{InitReserveConfigParams, config_default}
use veil_vault.Reserve.Liquidity
use veil_vault.Reserve.Liquidity.{liquidity_default}
use veil_vault.Reserve.Collateral
use veil_vault.Reserve.Collateral.{collateral_default}
use veil_vault.Obligation
use veil_vault.Obligation.{obligation_default}
use veil_vault.Runtime.{
  Clock, Seed, Runtime, World, text, key, put_market, put_reserve, put_obligation, put_tokens,
  is_key, check_seeds, check_market_seeds, reserve_seeds, obligation_seeds,
}

abbrev pub market_seeds : Pubkey → List Seed
market_seeds owner = text "lending_market" ∷ key owner ∷ []

-- `init`: an account that is there already is refused.
abbrev pub check_unused {ℓ} : {A : Type ℓ} → Option A → Result (Unit {0})
check_unused none = ok tt
check_unused (some a) = err (Error.anchor Constraint.account_in_use)

pub record InitializeMarketArgs : Type 0 where
  pub quote_currency : ℕ
  pub protocol_fee_bps : ℕ

pub record InitializeMarketAccounts : Type 0 where
  pub owner : Pubkey
  pub lending_market : Pubkey

-- The accounts of the instructions by which the owner changes the market.
pub record OwnerAccounts : Type 0 where
  pub owner : Pubkey
  pub lending_market : Pubkey

pub record UpdateReserveConfigAccounts : Type 0 where
  pub owner : Pubkey
  pub lending_market : Pubkey
  pub reserve_mint : Pubkey
  pub reserve : Pubkey

pub record AddReserveAccounts : Type 0 where
  pub owner : Pubkey
  pub lending_market : Pubkey
  pub reserve : Pubkey
  pub reserve_mint : Pubkey
  pub liquidity_vault : Pubkey
  pub fee_vault : Pubkey
  pub collateral_mint : Pubkey
  pub collateral_supply_vault : Pubkey

pub record InitObligationAccounts : Type 0 where
  pub owner : Pubkey
  pub lending_market : Pubkey
  pub obligation : Pubkey

module _ {T : Type 0} (rt : Runtime T) where
  unfoldable pub initialize_market :
      InitializeMarketAccounts → InitializeMarketArgs → World T → Result (World T)
  initialize_market a args w = do
    check_seeds rt (market_seeds a.owner) a.lending_market
    check_unused (w.markets a.lending_market)
    require (leb args.protocol_fee_bps max_protocol_fee_bps) LendingError.invalid_fee
    m ←
        Market.init
          (record {
            bump = (rt.find_program_address (market_seeds a.owner)).1;
            owner = a.owner;
            quote_currency = args.quote_currency;
            protocol_fee_bps = args.protocol_fee_bps;
          })
          market_default
    ok (put_market a.lending_market m w)

  -- `seeds = [b"lending_market", owner], bump = lending_market.bump, has_one = owner`
  unfoldable pub check_owner : Pubkey → Pubkey → LendingMarket → Result (Unit {0})
  check_owner owner lending_market m = do
    check_market_seeds rt owner m lending_market
    constrain (m.owner == owner) Constraint.constraint_has_one

  unfoldable pub set_pause : OwnerAccounts → Bool → World T → Result (World T)
  unfolding check_owner
  set_pause a paused w = do
    m ← or_missing (w.markets a.lending_market)
    check_owner a.owner a.lending_market m
    m' ← set_emergency_pause paused m
    ok (put_market a.lending_market m' w)

  unfoldable pub update_market_authority : OwnerAccounts → Pubkey → World T → Result (World T)
  unfolding check_owner
  update_market_authority a new_authority w = do
    m ← or_missing (w.markets a.lending_market)
    check_owner a.owner a.lending_market m
    ok (put_market a.lending_market (record m { owner = new_authority }) w)

  unfoldable pub update_reserve_config :
      UpdateReserveConfigAccounts → InitReserveConfigParams → World T → Result (World T)
  unfolding check_owner
  update_reserve_config a new_config w = do
    m ← or_missing (w.markets a.lending_market)
    r ← or_missing (w.reserves a.reserve)
    check_owner a.owner a.lending_market m
    constrain
        (is_key (rt.create_program_address (reserve_seeds a.lending_market a.reserve_mint) r.bump)
          a.reserve)
        Constraint.constraint_seeds
    constrain (r.lending_market == a.lending_market) Constraint.constraint_has_one
    c ← Config.init new_config r.config
    ok (put_reserve a.reserve (record r { config = c }) w)

  -- The token accounts and the cToken mint that `init` creates, in the order of the accounts.
  unfoldable pub create_vaults : AddReserveAccounts → ℕ → T → Result T
  create_vaults a decimals t = do
    check_seeds rt (text "liquidity_vault" ∷ key a.reserve ∷ []) a.liquidity_vault
    t1 ← or_failed (rt.init_token_account a.liquidity_vault a.reserve_mint a.lending_market t)
    check_seeds rt (text "fee_vault" ∷ key a.reserve ∷ []) a.fee_vault
    t2 ← or_failed (rt.init_token_account a.fee_vault a.reserve_mint a.lending_market t1)
    check_seeds rt (text "collateral_mint" ∷ key a.reserve ∷ []) a.collateral_mint
    t3 ← or_failed (rt.init_mint a.collateral_mint a.lending_market decimals t2)
    check_seeds rt (text "collateral_supply" ∷ key a.reserve ∷ []) a.collateral_supply_vault
    or_failed
        (rt.init_token_account a.collateral_supply_vault a.collateral_mint a.lending_market t3)

  -- The new reserve; its account is zeroed before.
  unfoldable pub new_reserve : AddReserveAccounts → InitReserveConfigParams → ℕ → Result Reserve
  new_reserve a config slot = do
    c ← Config.init config config_default
    ok (record {
      liquidity =
          Liquidity.init
            (record {
              mint = a.reserve_mint;
              supply_vault = a.liquidity_vault;
              fee_vault = a.fee_vault;
            })
            liquidity_default;
      config = c;
      collateral =
          Collateral.init
            (record { mint_pda = a.collateral_mint; supply_vault_pda = a.collateral_supply_vault })
            collateral_default;
      version = reserve_version;
      last_update_slot = slot;
      lending_market = a.lending_market;
      bump = (rt.find_program_address (reserve_seeds a.lending_market a.reserve_mint)).1;
    })

  unfoldable pub add_reserve :
      AddReserveAccounts → InitReserveConfigParams → Clock → World T → Result (World T)
  unfolding check_owner
  add_reserve a config clock w = do
    m ← or_missing (w.markets a.lending_market)
    check_seeds rt (reserve_seeds a.lending_market a.reserve_mint) a.reserve
    check_unused (w.reserves a.reserve)
    decimals ← or_missing (rt.mint_decimals w.tokens a.reserve_mint)
    t ← create_vaults a decimals w.tokens
    check_owner a.owner a.lending_market m
    require (not (is_paused m)) LendingError.invalid_config
    r ← new_reserve a config clock.slot
    ok (put_tokens t (put_reserve a.reserve r w))

  unfoldable pub init_obligation : InitObligationAccounts → World T → Result (World T)
  init_obligation a w = do
    m ← or_missing (w.markets a.lending_market)
    check_seeds rt (obligation_seeds a.lending_market a.owner) a.obligation
    check_unused (w.obligations a.obligation)
    check_market_seeds rt m.owner m a.lending_market
    let o =
        Obligation.init
          (record {
            bump = (rt.find_program_address (obligation_seeds a.lending_market a.owner)).1;
            owner = a.owner;
            lending_market = a.lending_market;
          })
          obligation_default
    ok (put_obligation a.obligation o w)
