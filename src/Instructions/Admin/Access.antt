-- ===== src/Instructions/Admin/Access.antt =====
-- Changing a reserve's configuration, and opening a reserve.
use veil_vault.Base.{
  refl, ℕ, ◌≡◌, some, ok, or_missing, arith, >>=-elim, ◌==◌, constrain, Constraint,
}
use mathlib.Core.Path.{subst}
use veil_vault.Constants.{Pubkey, rate_scale}
use veil_vault.Reserve.Liquidity
use veil_vault.Reserve.Collateral
use veil_vault.Market.{LendingMarket}
use veil_vault.Reserve.{Reserve}
use veil_vault.Reserve.Liquidity.{total_supply}
use veil_vault.Reserve.Config
use veil_vault.Reserve.Config.{InitReserveConfigParams, config_default}
use veil_vault.Reserve.Config.Init.{IsValid, configured-IsValid}
use veil_vault.Runtime.{Runtime, World, put_reserve, is_key, reserve_seeds}
use veil_vault.Instructions.Admin.{
  AddReserveAccounts, UpdateReserveConfigAccounts, check_owner, new_reserve, update_reserve_config,
}

module _ {T : Type 0} (rt : Runtime T) where
  owner_signs :
      (owner k : Pubkey) (m : LendingMarket) → check_owner rt owner k m ≡ ok tt → m.owner ≡ owner
  unfolding check_owner
  owner_signs owner k m h = ground arith

  -- Changing a reserve's configuration succeeds only for the owner of the market that the reserve
  -- belongs to, and replaces that reserve's configuration, and nothing else, by a valid one.
  pub update_reserve_config-IsValid :
      (a : UpdateReserveConfigAccounts) (p : InitReserveConfigParams) (w w' : World T)
      → update_reserve_config rt a p w ≡ ok w'
      → (m : LendingMarket) × (r r' : Reserve) × (w.markets a.lending_market ≡ some m)
        × (m.owner ≡ a.owner)
        × (w.reserves a.reserve ≡ some r)
        × (r.lending_market ≡ a.lending_market)
        × IsValid r'.config
        × (r' ≡ record r { config = r'.config })
        × (w' ≡ put_reserve a.reserve r' w)
  unfolding update_reserve_config
  update_reserve_config-IsValid a p w w' h =
      >>=-elim (or_missing (w.markets a.lending_market)) _ h λ m p1 k1.
        >>=-elim (or_missing (w.reserves a.reserve)) _ k1 λ r p2 k2.
          >>=-elim (check_owner rt a.owner a.lending_market m) _ k2 λ u p3 k3.
            >>=-elim
              (constrain
                (is_key
                  (rt.create_program_address (reserve_seeds a.lending_market a.reserve_mint) r.bump)
                  a.reserve)
                Constraint.constraint_seeds)
              _ k3
              λ u4 p4 k4.
                >>=-elim
                  (constrain (r.lending_market == a.lending_market) Constraint.constraint_has_one) _
                  k4
                  λ u5 p5 k5. >>=-elim (Config.init p r.config) _ k5 λ c p6 k6. (
                    m,
                    r,
                    record r { config = c },
                    ground arith,
                    owner_signs a.owner a.lending_market m p3,
                    ground arith,
                    ground arith,
                    (configured-IsValid p r.config r.config c p6).0,
                    refl,
                    cc,
                  )

  -- A new reserve has a valid configuration, belongs to the market, is current, and is empty: no
  -- supply, no debt, no cTokens and no price.
  pub new_reserve-empty :
      (a : AddReserveAccounts) (p : InitReserveConfigParams) (slot : ℕ) (r : Reserve)
      → new_reserve rt a p slot ≡ ok r
      → IsValid r.config
        × (r.lending_market ≡ a.lending_market)
        × (r.last_update_slot ≡ slot)
        × (total_supply r.liquidity ≡ ok 0)
        × (r.liquidity.borrowed_amount_sf ≡ 0)
        × (r.liquidity.cumulative_borrow_rate_sf ≡ rate_scale)
        × (r.collateral.mint_total_supply ≡ 0)
        × (r.liquidity.market_price_sf ≡ 0)
  unfolding new_reserve total_supply Liquidity.init Collateral.init
  new_reserve-empty a p slot r h = >>=-elim (Config.init p config_default) _ h λ c q k.
      let valid = (configured-IsValid p config_default config_default c q).0 in
      let same : c ≡ r.config = ground arith in
      (subst IsValid same valid, cc, cc, ground arith, cc, cc, cc, cc)
