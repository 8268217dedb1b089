-- ===== src/Program/Custody.antt =====
-- The token accounts that the program keeps for a market, under the effects on tokens.
use veil_vault.Base.{
  ℕ, ◌+◌, ◌≤◌, ◌≡◌, ◌≢◌, ◌∙◌, arith, ◌==◌, Bool-cases, inl, inr, none, some, List,
}
use veil_vault.Constants.{Pubkey}
use veil_vault.Runtime.{Runtime, Seed}
use veil_vault.Tokens.{IsWallet}
use veil_vault.Tokens.Effects.{Ledger, MaySpend, SameOwners, Moved, Minted, Burnt, OpenedAccount}

-- A program address owns the account, and nobody else may spend from it.
pub record Kept {T : Type 0} (rt : Runtime T) (l : Ledger T) (t : T) (account : Pubkey)
    : Type 0 where
  pub keeper : Pubkey
  pub seeds : List Seed
  pub bump : ℕ
  pub is_program : rt.create_program_address seeds bump ≡ some keeper
  pub owned : l.owner t account ≡ some keeper
  pub undelegated : l.delegate t account ≡ none

module _ {T : Type 0} {rt : Runtime T} {l : Ledger T} {t : T} {account : Pubkey}
    (b : Kept rt l t account) where
  pub wallet-ne :
      (authority from : Pubkey)
      → IsWallet rt authority
      → MaySpend l authority from t
      → from ≢ account
  wallet-ne authority from w may e = elim may [
    | inl o ↦ let owned = b.owned in let program = b.is_program in w.off_program b.seeds b.bump cc
    | inr d ↦ let undelegated = b.undelegated in ground arith
  ]

  pub guard_on : {t' : T} → SameOwners l t t' → Kept rt l t' account
  guard_on o = record {
    keeper = b.keeper;
    seeds = b.seeds;
    bump = b.bump;
    is_program = b.is_program;
    owned = o.owners account ∙ b.owned;
    undelegated = o.delegates account b.undelegated;
  }

  -- A new account is another one.
  pub opened-ne :
      {t' : T} {new authority : Pubkey} → OpenedAccount l new authority t t' → account ≢ new
  opened-ne m e = let owned = b.owned in let unused = m.unused in ground arith

  pub guard_beside :
      {t' : T} {new authority : Pubkey} → OpenedAccount l new authority t t' → Kept rt l t' account
  guard_beside m = record {
    keeper = b.keeper;
    seeds = b.seeds;
    bump = b.bump;
    is_program = b.is_program;
    owned = m.other_owners account (opened-ne m) ∙ b.owned;
    undelegated = m.other_delegates account (opened-ne m) ∙ b.undelegated;
  }

pub guard_of_new :
    {T : Type 0} {rt : Runtime T} {l : Ledger T} {t t' : T} {new authority : Pubkey}
    (account : Pubkey) (seeds : List Seed) (bump : ℕ)
    → OpenedAccount l new authority t t'
    → new ≡ account
    → rt.create_program_address seeds bump ≡ some authority
    → Kept rt l t' account
guard_of_new {authority} account seeds bump m e p =
    let owned = m.owned in
    let undelegated = m.undelegated in
    record {
      keeper = authority;
      seeds = seeds;
      bump = bump;
      is_program = p;
      owned = ground arith;
      undelegated = ground arith;
    }

-- What a transfer does to an account.
module _ {T : Type 0} {l : Ledger T} {from to authority : Pubkey} {n : ℕ} {t t' : T}
    (m : Moved l from to authority n t t') (k : Pubkey) where
  pub unspent : from ≢ k → l.balance t k ≤ l.balance t' k
  unspent ne = elim (Bool-cases (k == to)) [
    | inl e ↦ let got = m.received in ground arith
    | inr e ↦ let rest = m.elsewhere k in ground arith
  ]

  pub arrived : from ≢ k → to ≡ k → l.balance t' k ≡ l.balance t k + n
  arrived ne e = let got = m.received in ground arith

  pub spent : from ≡ k → l.balance t k ≤ l.balance t' k + n
  spent e = elim (Bool-cases (from == to)) [
    | inl same ↦ let kept = m.to_itself in ground arith
    | inr other ↦ let gone = m.sent in ground arith
  ]

-- New cTokens, and burnt ones.
module _ {T : Type 0} {l : Ledger T} {mint : Pubkey} {n : ℕ} {t t' : T} (k : Pubkey) where
  pub issue_beside : {to : Pubkey} → Minted l mint to n t t' → l.balance t k ≤ l.balance t' k
  issue_beside {to} m = elim (Bool-cases (k == to)) [
    | inl e ↦ let got = m.received in ground arith
    | inr e ↦ let rest = m.elsewhere k in ground arith
  ]

  pub burnt_beside :
      {from authority : Pubkey}
      → Burnt l mint from authority n t t'
      → from ≢ k
      → l.balance t k ≤ l.balance t' k
  burnt_beside m ne = let rest = m.elsewhere k in ground arith
