-- ===== src/Tokens/Effects.antt =====
-- The books that the SPL token program keeps, and what each of its instructions does to them.
use veil_vault.Base.{ℕ, ◌+◌, ◌≡◌, ◌≢◌, ◌⊎◌, Option, none, some}
use veil_vault.Constants.{Pubkey}

-- `owner` is `none` where there is no token account.
pub record Ledger (T : Type 0) : Type 0 where
  pub balance : T → Pubkey → ℕ
  pub owner : T → Pubkey → Option Pubkey
  pub delegate : T → Pubkey → Option Pubkey
  pub supply : T → Pubkey → ℕ

module _ {T : Type 0} (l : Ledger T) where
  open l use {balance, owner, delegate, supply}

  -- The owner's signature is asked for, or the delegate's.
  abbrev pub MaySpend : (authority from : Pubkey) → T → Type 0
  MaySpend authority from t = (owner t from ≡ some authority) ⊎ (delegate t from ≡ some authority)

  -- No account changes hands, and none gets a delegate.
  pub record SameOwners (t t' : T) : Type 0 where
    pub owners : (k : Pubkey) → owner t' k ≡ owner t k
    pub delegates : (k : Pubkey) → delegate t k ≡ none → delegate t' k ≡ none

  pub record Moved (from to authority : Pubkey) (n : ℕ) (t t' : T) : Type 0 where
    pub authorised : MaySpend authority from t
    pub sent : from ≢ to → balance t' from + n ≡ balance t from
    pub received : from ≢ to → balance t' to ≡ balance t to + n
    pub to_itself : from ≡ to → balance t' from ≡ balance t from
    pub elsewhere : (k : Pubkey) → k ≢ from → k ≢ to → balance t' k ≡ balance t k
    pub same_owners : SameOwners t t'
    pub same_supply : (k : Pubkey) → supply t' k ≡ supply t k

  pub record Minted (mint to : Pubkey) (n : ℕ) (t t' : T) : Type 0 where
    pub received : balance t' to ≡ balance t to + n
    pub elsewhere : (k : Pubkey) → k ≢ to → balance t' k ≡ balance t k
    pub same_owners : SameOwners t t'
    pub issued : supply t' mint ≡ supply t mint + n
    pub other_supply : (k : Pubkey) → k ≢ mint → supply t' k ≡ supply t k

  pub record Burnt (mint from authority : Pubkey) (n : ℕ) (t t' : T) : Type 0 where
    pub authorised : MaySpend authority from t
    pub sent : balance t' from + n ≡ balance t from
    pub elsewhere : (k : Pubkey) → k ≢ from → balance t' k ≡ balance t k
    pub same_owners : SameOwners t t'
    pub retired : supply t' mint + n ≡ supply t mint
    pub other_supply : (k : Pubkey) → k ≢ mint → supply t' k ≡ supply t k

  pub record OpenedAccount (account authority : Pubkey) (t t' : T) : Type 0 where
    pub unused : owner t account ≡ none
    pub owned : owner t' account ≡ some authority
    pub undelegated : delegate t' account ≡ none
    pub elsewhere : (k : Pubkey) → k ≢ account → balance t' k ≡ balance t k
    pub other_owners : (k : Pubkey) → k ≢ account → owner t' k ≡ owner t k
    pub other_delegates : (k : Pubkey) → k ≢ account → delegate t' k ≡ delegate t k
    pub same_supply : (k : Pubkey) → supply t' k ≡ supply t k

  pub record OpenedMint (mint : Pubkey) (t t' : T) : Type 0 where
    pub same_balance : (k : Pubkey) → balance t' k ≡ balance t k
    pub same_owners : SameOwners t t'
    pub empty : supply t' mint ≡ 0
    pub other_supply : (k : Pubkey) → k ≢ mint → supply t' k ≡ supply t k
