-- ===== src/Program/NewVaults.antt =====
-- programs/veilvault/src/instructions/add_reserve.rs: the accounts that `init` creates, as effects.
use veil_vault.Base.{ℕ, ◌≡◌, some, ok, [], ◌∷◌, arith, or_failed, Ensures, step}
use veil_vault.Constants.{Pubkey}
use veil_vault.Market.{LendingMarket}
use veil_vault.Runtime.{Runtime, text, key, vault_of, check_seeds}
use veil_vault.Tokens.{TokenLaws, mint_of, locker_of}
use veil_vault.Tokens.Effects.{Ledger, OpenedAccount, OpenedMint}
use veil_vault.Instructions.Admin.{AddReserveAccounts, check_owner, create_vaults}

-- The market's address is a program address.
pub check_owner-program :
    {T : Type 0} (rt : Runtime T) (owner k : Pubkey) (m : LendingMarket)
    → check_owner rt owner k m ≡ ok tt
    → rt.create_program_address (text "lending_market" ∷ key owner ∷ []) m.bump ≡ some k
unfolding check_owner
check_owner-program rt owner k m h = ground arith

module _ {T : Type 0} (rt : Runtime T) (l : Ledger T) (a : AddReserveAccounts) (t t' : T) where
  pub record Created : Type 0 where
    pub t1 : T
    pub t2 : T
    pub t3 : T
    pub vault : OpenedAccount l a.liquidity_vault a.lending_market t t1
    pub fees : OpenedAccount l a.fee_vault a.lending_market t1 t2
    pub mint : OpenedMint l a.collateral_mint t2 t3
    pub locker : OpenedAccount l a.collateral_supply_vault a.lending_market t3 t'
    pub vault_at : a.liquidity_vault ≡ vault_of rt a.reserve
    pub mint_at : a.collateral_mint ≡ mint_of rt a.reserve
    pub locker_at : a.collateral_supply_vault ≡ locker_of rt a.reserve

pub create_vaults-Created :
    {T : Type 0} (rt : Runtime T) (l : Ledger T) (laws : TokenLaws rt l) (a : AddReserveAccounts)
    (decimals : ℕ) (t : T)
    → Ensures (Created rt l a t) (create_vaults rt a decimals t)
unfolding create_vaults
create_vaults-Created rt l laws a decimals t =
    step (check_seeds rt (text "liquidity_vault" ∷ key a.reserve ∷ []) a.liquidity_vault) λ _ vault.
      step (or_failed (rt.init_token_account a.liquidity_vault a.reserve_mint a.lending_market t))
        λ t1 h1. step (check_seeds rt (text "fee_vault" ∷ key a.reserve ∷ []) a.fee_vault) λ _ _.
          step (or_failed (rt.init_token_account a.fee_vault a.reserve_mint a.lending_market t1))
            λ t2 h2.
              step (check_seeds rt (text "collateral_mint" ∷ key a.reserve ∷ []) a.collateral_mint)
                λ _ mint.
                  step (or_failed (rt.init_mint a.collateral_mint a.lending_market decimals t2))
                    λ t3 h3.
                      step
                        (check_seeds rt (text "collateral_supply" ∷ key a.reserve ∷ [])
                          a.collateral_supply_vault)
                        λ _ locker. record {
                          holds = λ t4 h4. record {
                            t1 = t1;
                            t2 = t2;
                            t3 = t3;
                            vault =
                                laws.opens_account a.liquidity_vault a.reserve_mint a.lending_market
                                  t t1 (ground arith);
                            fees =
                                laws.opens_account a.fee_vault a.reserve_mint a.lending_market t1 t2
                                  (ground arith);
                            mint =
                                laws.opens_mint a.collateral_mint a.lending_market decimals t2 t3
                                  (ground arith);
                            locker =
                                laws.opens_account a.collateral_supply_vault a.collateral_mint
                                  a.lending_market t3 t4 (ground arith);
                            vault_at = ground arith;
                            mint_at = ground arith;
                            locker_at = ground arith;
                          };
                        }
