-- ===== src/Program/Backing/Opening.antt =====
-- programs/veilvault/src/instructions/add_reserve.rs, against the vaults.
use mathlib.Core.Path.{subst}
use veil_vault.Base.{ℕ, ◌≡◌, ◌≢◌, sym, ok, arith, Ensures, follows}
use veil_vault.Constants.{Pubkey}
use veil_vault.Market.{LendingMarket}
use veil_vault.Reserve.{Reserve}
use veil_vault.Reserve.Config.{InitReserveConfigParams}
use veil_vault.Reserve.Liquidity
use veil_vault.Reserve.Collateral
use veil_vault.Runtime.{Clock, Runtime, World}
use veil_vault.Tokens.{AddressLaws, TokenLaws}
use veil_vault.Tokens.Effects.{Ledger}
use veil_vault.Instructions.Admin.{AddReserveAccounts, add_reserve, check_owner, new_reserve}
use veil_vault.Instructions.Traces.Admin.{add_reserve-Added}
use veil_vault.Program.NewVaults.{Created, create_vaults-Created, check_owner-program}
use veil_vault.Program.Backing.Defs.{Backed}
use veil_vault.Program.Backing.Effects.{account_opened, mint_opened, mint_started, vault_started}
use veil_vault.Program.Backing.Counts.{available, minted}
use veil_vault.Program.Backing.Worlds.{IsBacked, written-AllBacked, recount}

new_reserve-books :
    {T : Type 0} (rt : Runtime T) (a : AddReserveAccounts) (config : InitReserveConfigParams)
    (slot : ℕ) (r : Reserve)
    → new_reserve rt a config slot ≡ ok r
    → (available r ≡ 0) × (minted r ≡ 0)
unfolding new_reserve Liquidity.init Collateral.init
new_reserve-books rt a config slot r h = ground arith

module _ {T : Type 0} (rt : Runtime T) (l : Ledger T) (laws : TokenLaws rt l)
    (addresses : AddressLaws rt) (a : AddReserveAccounts) where
  -- The new vault and mint are empty.
  created-Backed :
      (m : LendingMarket) (t t' : T)
      → check_owner rt a.owner a.lending_market m ≡ ok tt
      → Created rt l a t t'
      → Backed rt l t' a.reserve 0 0
  created-Backed m t t' h c =
      let program = check_owner-program rt a.owner a.lending_market m h in
      let started = vault_started {rt = rt} a.reserve _ _ c.vault c.vault_at program in
      account_opened (mint_started (account_opened started c.fees) c.mint c.mint_at) c.locker

  -- Those of other pools are as before.
  beside-Backed :
      (t t' : T) (k : Pubkey) (x s : ℕ)
      → Created rt l a t t'
      → k ≢ a.reserve
      → Backed rt l t k x s
      → Backed rt l t' k x s
  beside-Backed t t' k x s c ne b =
      let differ = addresses.mints_differ k a.reserve in
      let mint_at = c.mint_at in
      let opened = account_opened (account_opened b c.vault) c.fees in
      account_opened (mint_opened opened c.mint λ same. ground arith) c.locker

  pub add_reserve-IsBacked :
      (config : InitReserveConfigParams) (clock : Clock) (w : World T)
      → IsBacked rt l w
      → Ensures (IsBacked rt l) (add_reserve rt a config clock w)
  add_reserve-IsBacked config clock w all = follows (add_reserve-Added rt a config clock w) λ w' h.
      let created = (create_vaults-Created rt l laws a h.decimals w.tokens).holds h.t h.t_is in
      let new = created-Backed h.m w.tokens h.t h.checked created in
      let (x, s) = new_reserve-books rt a config (clock.slot) h.r h.r_is in
      subst (IsBacked rt l) (sym h.made) (
        written-AllBacked all a.reserve h.r (recount new (sym x) (sym s))
          λ j b ne other. beside-Backed w.tokens h.t j (available b) (minted b) created ne other)
