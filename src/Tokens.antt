-- ===== src/Tokens.antt =====
-- What the lending program relies on in the SPL token program and in program addresses: the
-- documented effects of the calls of Runtime, for mints that charge no transfer fee and give no
-- third party power over an account.
pub mod Effects
use veil_vault.Base.{ℕ, ◌+◌, ◌≡◌, ◌≢◌, Option, none, some, List, [], ◌∷◌}
use veil_vault.Constants.{Pubkey}
use veil_vault.Runtime.{Runtime, Seed, text, key, vault_of}
use Effects.{Ledger, Moved, Minted, Burnt, OpenedAccount, OpenedMint}

module _ {T : Type 0} (rt : Runtime T) where
  -- the mint of a reserve's cTokens, and the account that holds what positions have locked
  abbrev pub mint_of : Pubkey → Pubkey
  mint_of reserve = (rt.find_program_address (text "collateral_mint" ∷ key reserve ∷ [])).0

  abbrev pub locker_of : Pubkey → Pubkey
  locker_of reserve = (rt.find_program_address (text "collateral_supply" ∷ key reserve ∷ [])).0

  -- An address with a private key is no program address.
  pub record IsWallet (k : Pubkey) : Type 0 where
    pub off_program : (seeds : List Seed) (bump : ℕ) → rt.create_program_address seeds bump ≢ some k

  -- Distinct seeds have distinct addresses, as far as reserves use them.
  pub record AddressLaws : Type 0 where
    pub vaults_differ : (j k : Pubkey) → vault_of rt j ≡ vault_of rt k → j ≡ k
    pub mints_differ : (j k : Pubkey) → mint_of j ≡ mint_of k → j ≡ k
    pub locker-ne : (j k : Pubkey) → locker_of j ≢ vault_of rt k
    pub lockers_differ : (j k : Pubkey) → locker_of j ≡ locker_of k → j ≡ k

  pub record TokenLaws (l : Ledger T) : Type 0 where
    pub transfers :
        (from mint to authority : Pubkey) (n decimals : ℕ) (t t' : T)
        → rt.transfer_checked from mint to authority n decimals t ≡ some t'
        → Moved l from to authority n t t'
    pub mints :
        (mint to authority : Pubkey) (n : ℕ) (t t' : T)
        → rt.mint_to mint to authority n t ≡ some t'
        → Minted l mint to n t t'
    pub burns :
        (mint from authority : Pubkey) (n : ℕ) (t t' : T)
        → rt.burn mint from authority n t ≡ some t'
        → Burnt l mint from authority n t t'
    pub opens_account :
        (account mint authority : Pubkey) (t t' : T)
        → rt.init_token_account account mint authority t ≡ some t'
        → OpenedAccount l account authority t t'
    pub opens_mint :
        (mint authority : Pubkey) (decimals : ℕ) (t t' : T)
        → rt.init_mint mint authority decimals t ≡ some t'
        → OpenedMint l mint t t'
