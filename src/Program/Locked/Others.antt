-- ===== src/Program/Locked/Others.antt =====
-- The cleartext instructions that move no tokens, and what positions have locked.
use mathlib.Core.Path.{ap, subst}
use veil_vault.Base.{
  Bool, ◌≡◌, ◌∙◌, sym, Option, none, some, ok, arith, require, constrain, Constraint, LendingError,
  or_missing, ◌==◌, Bool-cases, inl, inr, Ensures, step, returns,
}
use veil_vault.Constants.{Pubkey}
use veil_vault.Prices.{PriceUpdate}
use veil_vault.Reserve.{Reserve}
use veil_vault.Reserve.Config.{InitReserveConfigParams}
use veil_vault.Obligation.{Obligation, obligation_default}
use veil_vault.Obligation.Valid
use veil_vault.Obligation.Valid.{deposited}
use veil_vault.Runtime.{
  Clock, Runtime, World, stored, check_market_seeds, check_seeds, obligation_seeds,
}
use veil_vault.Tokens.Effects.{Ledger}
use veil_vault.Instructions.Admin.{
  InitializeMarketAccounts, InitializeMarketArgs, InitObligationAccounts, OwnerAccounts,
  UpdateReserveConfigAccounts, initialize_market, init_obligation, set_pause,
  update_market_authority, update_reserve_config, check_unused,
}
use veil_vault.Instructions.Admin.Access.{update_reserve_config-IsValid}
use veil_vault.Instructions.RefreshReserve.{RefreshReserveAccounts, refresh_reserve, refresh}
use veil_vault.Instructions.RefreshObligation
use veil_vault.Instructions.RefreshObligation.{RefreshObligationAccounts, refresh_obligation}
use veil_vault.Program.Backing.Others.{
  SamePools, initialize_market-SamePools, set_pause-SamePools, update_market_authority-SamePools,
}
use veil_vault.Program.Locked.Defs.{
  AllSecured, IsSecured, SameLocks, held-AllSecured, stored-SameReserves, same-SameReserves,
  same-SameLocks, stored-SameLocks, locked_of,
}
use veil_vault.Program.Locked.Moves.{same-Holds}
use veil_vault.Program.Locked.Positions.{refresh-SameDeposits}

module _ {T : Type 0} (rt : Runtime T) (w : World T) where
  initialize_market-obligations :
      (a : InitializeMarketAccounts) (args : InitializeMarketArgs)
      → Ensures (λ w'. w'.obligations ≡ w.obligations) (initialize_market rt a args w)
  unfolding initialize_market
  initialize_market-obligations a args = record { holds = λ w' h. ground arith }

  set_pause-obligations :
      (a : OwnerAccounts) (paused : Bool)
      → Ensures (λ w'. w'.obligations ≡ w.obligations) (set_pause rt a paused w)
  unfolding set_pause
  set_pause-obligations a paused = record { holds = λ w' h. ground arith }

  update_market_authority-obligations :
      (a : OwnerAccounts) (k : Pubkey)
      → Ensures (λ w'. w'.obligations ≡ w.obligations) (update_market_authority rt a k w)
  unfolding update_market_authority
  update_market_authority-obligations a k = record { holds = λ w' h. ground arith }

-- A new obligation has nothing locked.
pub new-SameLocks :
    (f : Pubkey → Option Obligation) (at : Pubkey) (o : Obligation)
    → f at ≡ none
    → ((k : Pubkey) → deposited o k ≡ 0)
    → SameLocks f (stored f at o)
new-SameLocks f at o h e = record {
  same = λ k ne j. elim (Bool-cases (j == at)) [
    | inl same ↦
        let found : f j ≡ none = ground arith in
        let now : stored f at o j ≡ some o = ground arith in
        ap (locked_of k) now ∙ e k ∙ sym (ap (locked_of k) found)
    | inr other ↦ let found : stored f at o j ≡ f j = ground arith in ap (locked_of k) found
  ];
}

module _ {T : Type 0} (rt : Runtime T) (l : Ledger T) (w : World T)
    (no_default : w.reserves 0 ≡ none) (all : IsSecured rt l w) where
  -- Pools, tokens and obligations are left alone.
  unmoved-IsSecured :
      (w' : World T) → SamePools rt w w' → w'.obligations ≡ w.obligations → IsSecured rt l w'
  unmoved-IsSecured w' same e =
      subst (λ t. AllSecured rt l t w'.reserves w'.obligations) (sym same.tokens)
        (subst (λ r. AllSecured rt l w.tokens r w'.obligations) (sym same.reserves)
          (subst (AllSecured rt l w.tokens w.reserves) (sym e) all))

  pub initialize_market-IsSecured :
      (a : InitializeMarketAccounts) (args : InitializeMarketArgs)
      → Ensures (IsSecured rt l) (initialize_market rt a args w)
  initialize_market-IsSecured a args = record {
    holds = λ w' h.
        unmoved-IsSecured w' ((initialize_market-SamePools rt w a args).holds w' h)
          ((initialize_market-obligations rt w a args).holds w' h);
  }

  pub set_pause-IsSecured :
      (a : OwnerAccounts) (paused : Bool) → Ensures (IsSecured rt l) (set_pause rt a paused w)
  set_pause-IsSecured a paused = record {
    holds = λ w' h.
        unmoved-IsSecured w' ((set_pause-SamePools rt w a paused).holds w' h)
          ((set_pause-obligations rt w a paused).holds w' h);
  }

  pub update_market_authority-IsSecured :
      (a : OwnerAccounts) (k : Pubkey) → Ensures (IsSecured rt l) (update_market_authority rt a k w)
  update_market_authority-IsSecured a k = record {
    holds = λ w' h.
        unmoved-IsSecured w' ((update_market_authority-SamePools rt w a k).holds w' h)
          ((update_market_authority-obligations rt w a k).holds w' h);
  }

  -- The obligations change, and what is locked in them does not.
  unlocked_none-AllSecured :
      (obligations : Pubkey → Option Obligation)
      → SameLocks w.obligations obligations
      → AllSecured rt l w.tokens w.reserves obligations
  unlocked_none-AllSecured obligations =
      held-AllSecured all no_default w.reserves obligations (same-Holds rt l w.tokens)
        (same-SameReserves w.reserves)

  rewritten-AllSecured :
      (k : Pubkey) {r : Reserve} (r' : Reserve)
      → or_missing (w.reserves k) ≡ ok r
      → AllSecured rt l w.tokens (stored w.reserves k r') w.obligations
  rewritten-AllSecured k r' h =
      held-AllSecured all no_default _ w.obligations (same-Holds rt l w.tokens)
        (stored-SameReserves w.reserves k r' h) (same-SameLocks w.obligations)

  pub init_obligation-IsSecured :
      (a : InitObligationAccounts) → Ensures (IsSecured rt l) (init_obligation rt a w)
  unfolding init_obligation
  init_obligation-IsSecured a = step (or_missing (w.markets a.lending_market)) λ m _.
      step (check_seeds rt (obligation_seeds a.lending_market a.owner) a.obligation) λ _ _.
        step (check_unused (w.obligations a.obligation)) λ _ unused.
          step (check_market_seeds rt m.owner m a.lending_market) λ _ _. returns (
            unlocked_none-AllSecured _ (
              new-SameLocks w.obligations a.obligation _ (ground arith)
                λ k. ((Valid.init-IsValid _ obligation_default).1 k).0))

  pub refresh_obligation-IsSecured :
      (a : RefreshObligationAccounts) (clock : Clock)
      → Ensures (IsSecured rt l) (refresh_obligation a clock w)
  unfolding refresh_obligation
  refresh_obligation-IsSecured a clock = step (or_missing (w.markets a.lending_market)) λ m _.
      step (or_missing (w.obligations a.obligation)) λ o h.
        step (constrain (o.lending_market == a.lending_market) Constraint.constraint_has_one) λ _ _.
          step (RefreshObligation.refresh w.reserves a.remaining_accounts clock o) λ o' k.
            let same = (refresh-SameDeposits w.reserves a.remaining_accounts clock o).holds o' k in
            returns (
              unlocked_none-AllSecured _
                (stored-SameLocks w.obligations a.obligation o' h λ j ne. same.same j))

  pub refresh_reserve-IsSecured :
      (a : RefreshReserveAccounts) (u : Option PriceUpdate) (clock : Clock)
      → Ensures (IsSecured rt l) (refresh_reserve rt a u clock w)
  unfolding refresh_reserve
  refresh_reserve-IsSecured a u clock = step (or_missing (w.markets a.lending_market)) λ m _.
      step (or_missing (w.reserves a.reserve)) λ r h.
        step (check_market_seeds rt m.owner m a.lending_market) λ _ _.
          step (require (r.lending_market == a.lending_market) LendingError.invalid_config) λ _ _.
            step (refresh a.pyth_price_update u clock r)
              λ r' k. returns (rewritten-AllSecured a.reserve r' h)

  pub update_reserve_config-IsSecured :
      (a : UpdateReserveConfigAccounts) (p : InitReserveConfigParams)
      → Ensures (IsSecured rt l) (update_reserve_config rt a p w)
  update_reserve_config-IsSecured a p = record {
    holds = λ w' h.
        let (m, r, r', _, _, found, _, _, same, made) =
          update_reserve_config-IsValid rt a p w w' h in
        subst (IsSecured rt l) (sym made)
          (rewritten-AllSecured a.reserve {r = r} r' (ground arith));
  }
