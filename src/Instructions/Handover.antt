-- ===== src/Instructions/Handover.antt =====
-- programs/veilvault/src/instructions/{set_pause, update_market_authority}.rs: what they do to the
-- market.
use veil_vault.Base.{◌≡◌, Bool, some, ok, or_missing, arith, >>=-elim}
use veil_vault.Constants.{Pubkey}
use veil_vault.Market.{LendingMarket, set_emergency_pause}
use veil_vault.Runtime.{Runtime, World, put_market}
use veil_vault.Instructions.Admin.{OwnerAccounts, check_owner, set_pause, update_market_authority}
use veil_vault.Instructions.Gates.{Derived, check_owner-gate}

module _ {T : Type 0} (rt : Runtime T) where
  -- Pausing succeeds for the owner alone, and changes the pause of that market alone.
  pub set_pause-effect :
      (a : OwnerAccounts) (paused : Bool) (w w' : World T)
      → set_pause rt a paused w ≡ ok w'
      → (m : LendingMarket) × (w.markets a.lending_market ≡ some m)
        × Derived rt m a.lending_market
        × (m.owner ≡ a.owner)
        × (w' ≡ put_market a.lending_market (record m { emergency_pause = paused }) w)
  unfolding set_pause set_emergency_pause
  set_pause-effect a paused w w' h = >>=-elim (or_missing (w.markets a.lending_market)) _ h λ m p k.
      >>=-elim (check_owner rt a.owner a.lending_market m) _ k λ u q k'.
        let (owns, derived) = check_owner-gate rt a.owner a.lending_market m q in
        (m, ground arith, derived, owns, cc)

  pub update_market_authority-effect :
      (a : OwnerAccounts) (new : Pubkey) (w w' : World T)
      → update_market_authority rt a new w ≡ ok w'
      → (m : LendingMarket) × (w.markets a.lending_market ≡ some m)
        × Derived rt m a.lending_market
        × (w' ≡ put_market a.lending_market (record m { owner = new }) w)
  unfolding update_market_authority
  update_market_authority-effect a new w w' h =
      >>=-elim (or_missing (w.markets a.lending_market)) _ h λ m p k.
        >>=-elim (check_owner rt a.owner a.lending_market m) _ k
          λ u q k'. (m, ground arith, (check_owner-gate rt a.owner a.lending_market m q).1, cc)
