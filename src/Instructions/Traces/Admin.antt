-- ===== src/Instructions/Traces/Admin.antt =====
-- programs/veilvault/src/instructions/add_reserve.rs: the values and the outcomes of the calls
-- along a successful run.
use veil_vault.Base.{
  ℕ, ◌≡◌, refl, LendingError, ok, require, or_missing, not, Ensures, step, returns,
}
use veil_vault.Market.{LendingMarket, is_paused}
use veil_vault.Reserve.{Reserve}
use veil_vault.Reserve.Config.{InitReserveConfigParams}
use veil_vault.Runtime.{Clock, Runtime, World, put_reserve, put_tokens, check_seeds, reserve_seeds}
use veil_vault.Instructions.Admin.{
  AddReserveAccounts, add_reserve, check_owner, check_unused, create_vaults, new_reserve,
}

module _ {T : Type 0} (rt : Runtime T) (a : AddReserveAccounts) (config : InitReserveConfigParams)
    (clock : Clock) (w : World T) where
  pub record Added (w' : World T) : Type 0 where
    pub m : LendingMarket
    pub m_is : or_missing (w.markets a.lending_market) ≡ ok m
    pub seeded : check_seeds rt (reserve_seeds a.lending_market a.reserve_mint) a.reserve ≡ ok tt
    pub unused : check_unused (w.reserves a.reserve) ≡ ok tt
    pub decimals : ℕ
    pub decimals_is : or_missing (rt.mint_decimals w.tokens a.reserve_mint) ≡ ok decimals
    pub t : T
    pub t_is : create_vaults rt a decimals w.tokens ≡ ok t
    pub checked : check_owner rt a.owner a.lending_market m ≡ ok tt
    pub open_market : require (not (is_paused m)) LendingError.invalid_config ≡ ok tt
    pub r : Reserve
    pub r_is : new_reserve rt a config clock.slot ≡ ok r
    pub made : w' ≡ put_tokens t (put_reserve a.reserve r w)

  pub add_reserve-Added : Ensures Added (add_reserve rt a config clock w)
  unfolding add_reserve
  add_reserve-Added = step (or_missing (w.markets a.lending_market)) λ m h0.
      step (check_seeds rt (reserve_seeds a.lending_market a.reserve_mint) a.reserve) λ _ h1.
        step (check_unused (w.reserves a.reserve)) λ _ h2.
          step (or_missing (rt.mint_decimals w.tokens a.reserve_mint)) λ decimals h3.
            step (create_vaults rt a decimals w.tokens) λ t h4.
              step (check_owner rt a.owner a.lending_market m) λ _ h5.
                step (require (not (is_paused m)) LendingError.invalid_config) λ _ h6.
                  step (new_reserve rt a config clock.slot) λ r h7. returns (record {
                    m = m;
                    m_is = h0;
                    seeded = h1;
                    unused = h2;
                    decimals = decimals;
                    decimals_is = h3;
                    t = t;
                    t_is = h4;
                    checked = h5;
                    open_market = h6;
                    r = r;
                    r_is = h7;
                    made = refl;
                  })
