-- ===== src/Program/Backing/Others.antt =====
-- The cleartext instructions that move no tokens, against the vaults.
use mathlib.Core.Path.{subst}
use veil_vault.Base.{
  Bool, ◌≡◌, sym, Option, arith, require, LendingError, or_missing, ◌==◌, Ensures, step, returns,
}
use veil_vault.Constants.{Pubkey}
use veil_vault.Prices.{PriceUpdate}
use veil_vault.Reserve.Config.{InitReserveConfigParams}
use veil_vault.Runtime.{Clock, Runtime, World, check_market_seeds}
use veil_vault.Tokens.Effects.{Ledger}
use veil_vault.Instructions.Admin.{
  InitializeMarketAccounts, InitializeMarketArgs, InitObligationAccounts, OwnerAccounts,
  UpdateReserveConfigAccounts, initialize_market, init_obligation, set_pause,
  update_market_authority, update_reserve_config,
}
use veil_vault.Instructions.Admin.Access.{update_reserve_config-IsValid}
use veil_vault.Instructions.RefreshReserve.{RefreshReserveAccounts, refresh_reserve, refresh}
use veil_vault.Instructions.RefreshObligation.{RefreshObligationAccounts, refresh_obligation}
use veil_vault.Program.Backing.Counts.{refresh-SameBooks}
use veil_vault.Program.Backing.Worlds.{IsBacked, AllBacked, rewritten-AllBacked}

module _ {T : Type 0} (rt : Runtime T) (w : World T) where
  -- Pools and tokens are left alone.
  pub record SamePools (w' : World T) : Type 0 where
    pub reserves : w'.reserves ≡ w.reserves
    pub tokens : w'.tokens ≡ w.tokens

  pub initialize_market-SamePools :
      (a : InitializeMarketAccounts) (args : InitializeMarketArgs)
      → Ensures SamePools (initialize_market rt a args w)
  unfolding initialize_market
  initialize_market-SamePools a args = record {
    holds = λ w' h. record { reserves = ground arith; tokens = ground arith };
  }

  pub init_obligation-SamePools :
      (a : InitObligationAccounts) → Ensures SamePools (init_obligation rt a w)
  unfolding init_obligation
  init_obligation-SamePools a = record {
    holds = λ w' h. record { reserves = ground arith; tokens = ground arith };
  }

  pub set_pause-SamePools :
      (a : OwnerAccounts) (paused : Bool) → Ensures SamePools (set_pause rt a paused w)
  unfolding set_pause
  set_pause-SamePools a paused = record {
    holds = λ w' h. record { reserves = ground arith; tokens = ground arith };
  }

  pub update_market_authority-SamePools :
      (a : OwnerAccounts) (k : Pubkey) → Ensures SamePools (update_market_authority rt a k w)
  unfolding update_market_authority
  update_market_authority-SamePools a k = record {
    holds = λ w' h. record { reserves = ground arith; tokens = ground arith };
  }

  pub refresh_obligation-SamePools :
      (a : RefreshObligationAccounts) (clock : Clock)
      → Ensures SamePools (refresh_obligation a clock w)
  unfolding refresh_obligation
  refresh_obligation-SamePools a clock = record {
    holds = λ w' h. record { reserves = ground arith; tokens = ground arith };
  }

  module _ (l : Ledger T) (all : IsBacked rt l w) where
    pub same-IsBacked : (w' : World T) → SamePools w' → IsBacked rt l w'
    same-IsBacked w' same =
        subst (λ t. AllBacked rt l t w'.reserves) (sym same.tokens)
          (subst (AllBacked rt l w.tokens) (sym same.reserves) all)

    pub refresh_reserve-IsBacked :
        (a : RefreshReserveAccounts) (u : Option PriceUpdate) (clock : Clock)
        → Ensures (IsBacked rt l) (refresh_reserve rt a u clock w)
    unfolding refresh_reserve
    refresh_reserve-IsBacked a u clock = step (or_missing (w.markets a.lending_market)) λ m _.
        step (or_missing (w.reserves a.reserve)) λ r h.
          step (check_market_seeds rt m.owner m a.lending_market) λ _ _.
            step (require (r.lending_market == a.lending_market) LendingError.invalid_config) λ _ _.
              step (refresh a.pyth_price_update u clock r) λ r' k. returns (
                rewritten-AllBacked all a.reserve h
                  ((refresh-SameBooks a.pyth_price_update u clock r).holds r' k))

    pub update_reserve_config-IsBacked :
        (a : UpdateReserveConfigAccounts) (p : InitReserveConfigParams)
        → Ensures (IsBacked rt l) (update_reserve_config rt a p w)
    update_reserve_config-IsBacked a p = record {
      holds = λ w' h.
          let (m, r, r', _, _, found, _, _, same, made) =
            update_reserve_config-IsValid rt a p w w' h in
          subst (IsBacked rt l) (sym made) (
            rewritten-AllBacked all a.reserve {r = r} (ground arith)
              (record { tokens = ground arith; ctokens = ground arith }));
    }
