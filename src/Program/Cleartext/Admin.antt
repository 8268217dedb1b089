-- ===== src/Program/Cleartext/Admin.antt =====
-- The instructions that create accounts and those of the owner under the invariant of
-- Program/Sound.
use mathlib.Core.Path.{subst}
use veil_vault.Base.{sym, follows}
use veil_vault.Instructions.Traces.Admin.{add_reserve-Added}
use veil_vault.Base.{
  ℕ, Bool, ◌≡◌, ◌≢◌, List, Constraint, LendingError, ok, require, constrain, or_missing, leb, ◌==◌,
  arith, Ensures, step, returns,
}
use veil_vault.Constants.{Pubkey, max_protocol_fee_bps}
use veil_vault.Market
use veil_vault.Market.{LendingMarket, market_default, is_paused, set_emergency_pause}
use veil_vault.Reserve.Config
use veil_vault.Reserve.Config.{InitReserveConfigParams, config_default, is_active}
use veil_vault.Reserve.Config.Init
use veil_vault.Obligation
use veil_vault.Obligation.{obligation_default}
use veil_vault.Obligation.Valid
use veil_vault.Runtime.{
  Clock, Seed, Runtime, World, check_seeds, check_market_seeds, is_key, reserve_seeds,
  obligation_seeds,
}
use veil_vault.Instructions.Admin.{
  InitializeMarketAccounts, InitializeMarketArgs, OwnerAccounts, UpdateReserveConfigAccounts,
  AddReserveAccounts, InitObligationAccounts, initialize_market, set_pause, update_market_authority,
  update_reserve_config, add_reserve, init_obligation, market_seeds, check_unused, check_owner,
  new_reserve,
}
use veil_vault.Program.Sound.{IsSound, loaded-ne, put_reserve-Sound, put_obligation-Sound}

module _ {T : Type 0} (rt : Runtime T) where
  pub initialize_market-IsSound :
      (a : InitializeMarketAccounts) (args : InitializeMarketArgs) (w : World T)
      → IsSound w
      → Ensures IsSound (initialize_market rt a args w)
  unfolding initialize_market
  initialize_market-IsSound a args w s =
      step (check_seeds rt (market_seeds a.owner) a.lending_market) λ _ _.
        step (check_unused (w.markets a.lending_market)) λ _ _.
          step (require (leb args.protocol_fee_bps max_protocol_fee_bps) LendingError.invalid_fee)
            λ _ _.
              step
                (Market.init
                  (record {
                    bump = (rt.find_program_address (market_seeds a.owner)).1;
                    owner = a.owner;
                    quote_currency = args.quote_currency;
                    protocol_fee_bps = args.protocol_fee_bps;
                  })
                  market_default)
                λ m _. returns s

  pub set_pause-IsSound :
      (a : OwnerAccounts) (paused : Bool) (w : World T)
      → IsSound w
      → Ensures IsSound (set_pause rt a paused w)
  unfolding set_pause
  set_pause-IsSound a paused w s = step (or_missing (w.markets a.lending_market)) λ m _.
      step (check_owner rt a.owner a.lending_market m)
        λ _ _. step (set_emergency_pause paused m) λ m' _. returns s

  pub update_market_authority-IsSound :
      (a : OwnerAccounts) (new_authority : Pubkey) (w : World T)
      → IsSound w
      → Ensures IsSound (update_market_authority rt a new_authority w)
  unfolding update_market_authority
  update_market_authority-IsSound a new_authority w s =
      step (or_missing (w.markets a.lending_market))
        λ m _. step (check_owner rt a.owner a.lending_market m) λ _ _. returns s

  pub update_reserve_config-IsSound :
      (a : UpdateReserveConfigAccounts) (new_config : InitReserveConfigParams) (w : World T)
      → IsSound w
      → Ensures IsSound (update_reserve_config rt a new_config w)
  unfolding update_reserve_config
  update_reserve_config-IsSound a new_config w s =
      step (or_missing (w.markets a.lending_market)) λ m _.
        step (or_missing (w.reserves a.reserve)) λ r hr.
          step (check_owner rt a.owner a.lending_market m) λ _ _.
            step
              (constrain
                (is_key
                  (rt.create_program_address (reserve_seeds a.lending_market a.reserve_mint) r.bump)
                  a.reserve)
                Constraint.constraint_seeds)
              λ _ _.
                step
                  (constrain (r.lending_market == a.lending_market) Constraint.constraint_has_one)
                  λ _ _. step (Config.init new_config r.config) λ c hc. returns (
                    put_reserve-Sound s a.reserve (record r { config = c }) (loaded-ne s hr)
                      ((Init.configured-IsValid new_config r.config r.config c hc).0))

  pub init_obligation-IsSound :
      (a : InitObligationAccounts) (w : World T)
      → IsSound w
      → Ensures IsSound (init_obligation rt a w)
  unfolding init_obligation
  init_obligation-IsSound a w s = step (or_missing (w.markets a.lending_market)) λ m _.
      step (check_seeds rt (obligation_seeds a.lending_market a.owner) a.obligation) λ _ _.
        step (check_unused (w.obligations a.obligation)) λ _ _.
          step (check_market_seeds rt m.owner m a.lending_market) λ _ _.
            let o =
              Obligation.init
                (record {
                  bump = (rt.find_program_address (obligation_seeds a.lending_market a.owner)).1;
                  owner = a.owner;
                  lending_market = a.lending_market;
                })
                obligation_default in
            returns (
              put_obligation-Sound s a.obligation o (
                (Valid.init-IsValid
                  (record {
                    bump = (rt.find_program_address (obligation_seeds a.lending_market a.owner)).1;
                    owner = a.owner;
                    lending_market = a.lending_market;
                  })
                  obligation_default).0))

  -- No program address is the default key.
  module _ (off_default : (seeds : List Seed) → (rt.find_program_address seeds).0 ≢ 0) where
    check_seeds-ne : (seeds : List Seed) (k : Pubkey) → check_seeds rt seeds k ≡ ok tt → k ≢ 0
    check_seeds-ne seeds k h e = off_default seeds (ground arith)

    new_reserve-config :
        (a : AddReserveAccounts) (config : InitReserveConfigParams) (slot : ℕ)
        → Ensures (λ r. Init.IsValid r.config) (new_reserve rt a config slot)
    unfolding new_reserve
    new_reserve-config a config slot =
        step (Config.init config config_default)
          λ c h. returns ((Init.configured-IsValid config config_default config_default c h).0)

    pub add_reserve-IsSound :
        (a : AddReserveAccounts) (config : InitReserveConfigParams) (clock : Clock) (w : World T)
        → IsSound w
        → Ensures IsSound (add_reserve rt a config clock w)
    add_reserve-IsSound a config clock w s = follows (add_reserve-Added rt a config clock w) λ w' h.
        let off =
          check_seeds-ne (reserve_seeds a.lending_market a.reserve_mint) a.reserve h.seeded in
        let valid = (new_reserve-config a config (clock.slot)).holds h.r h.r_is in
        subst IsSound (sym h.made) (put_reserve-Sound s a.reserve h.r off valid)
