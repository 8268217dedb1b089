-- ===== src/Program/Backing/Defs.antt =====
-- A pool's books against the token program's, and what each effect on tokens does to them.
use veil_vault.Base.{ℕ, ◌≤◌, ◌≡◌}
use veil_vault.Constants.{Pubkey}
use veil_vault.Runtime.{Runtime, vault_of}
use veil_vault.Tokens.{mint_of}
use veil_vault.Tokens.Effects.{Ledger, SameOwners}
use veil_vault.Program.Custody.{Kept, guard_on}

module _ {T : Type 0} (rt : Runtime T) (l : Ledger T) where
  -- The vault of a reserve holds what the pool records as available, a program address owns it
  -- and nobody else may spend from it, and the cTokens in circulation are those recorded.
  pub record Backed (t : T) (reserve : Pubkey) (available minted : ℕ) : Type 0 where
    pub covered : available ≤ l.balance t (vault_of rt reserve)
    pub recorded : l.supply t (mint_of rt reserve) ≡ minted
    pub guard : Kept rt l t (vault_of rt reserve)

module _ {T : Type 0} {rt : Runtime T} {l : Ledger T} {t t' : T} {k : Pubkey} {a s : ℕ} where
  -- Books that move along with the vault and the mint.
  pub follow :
      (a' s' : ℕ)
      → Backed rt l t k a s
      → SameOwners l t t'
      → a' ≤ l.balance t' (vault_of rt k)
      → l.supply t' (mint_of rt k) ≡ s'
      → Backed rt l t' k a' s'
  follow a' s' b o covered recorded = record {
    covered = covered;
    recorded = recorded;
    guard = guard_on b.guard o;
  }
