-- ===== src/Program/Backing/Effects.antt =====
-- What each effect on tokens does to a pool whose books are backed.
use veil_vault.Base.{ℕ, refl, ◌+◌, ◌≤◌, ◌≡◌, ◌≢◌, arith, some, List}
use veil_vault.Constants.{Pubkey}
use veil_vault.Runtime.{Runtime, Seed, vault_of}
use veil_vault.Tokens.{mint_of}
use veil_vault.Tokens.Effects.{Ledger, Moved, Minted, Burnt, OpenedAccount, OpenedMint}
use veil_vault.Program.Custody.{
  unspent, arrived, spent, issue_beside, burnt_beside, opened-ne, guard_beside, guard_of_new,
}
use veil_vault.Program.Backing.Defs.{Backed, follow}

module _ {T : Type 0} {l : Ledger T} {from to authority : Pubkey} {n : ℕ} {t t' : T}
    (m : Moved l from to authority n t t') where
  module _ {rt : Runtime T} {k : Pubkey} {a s : ℕ} (b : Backed rt l t k a s) where
    pub passed_by : from ≢ vault_of rt k → Backed rt l t' k a s
    passed_by ne =
        let covered = b.covered in
        let more = unspent m (vault_of rt k) ne in
        follow a s b m.same_owners (ground arith)
          (let recorded = b.recorded in let same = m.same_supply (mint_of rt k) in ground arith)

    pub paid_in : from ≢ vault_of rt k → to ≡ vault_of rt k → Backed rt l t' k (a + n) s
    paid_in ne e =
        let covered = b.covered in
        let more = arrived m (vault_of rt k) ne e in
        follow (a + n) s b m.same_owners (ground arith)
          (let recorded = b.recorded in let same = m.same_supply (mint_of rt k) in ground arith)

    pub paid_out : {a' : ℕ} → from ≡ vault_of rt k → a' + n ≡ a → Backed rt l t' k a' s
    paid_out {a'} e d =
        let covered = b.covered in
        let less = spent m (vault_of rt k) e in
        follow a' s b m.same_owners (ground arith)
          (let recorded = b.recorded in let same = m.same_supply (mint_of rt k) in ground arith)

-- cTokens issued by a reserve's mint, and by another.
module _ {T : Type 0} {rt : Runtime T} {l : Ledger T} {mint to : Pubkey} {n : ℕ} {t t' : T}
    {k : Pubkey} {a s : ℕ} (m : Minted l mint to n t t') (b : Backed rt l t k a s) where
  minted_covered : a ≤ l.balance t' (vault_of rt k)
  minted_covered =
      let covered = b.covered in let more = issue_beside (vault_of rt k) m in ground arith

  pub issued : mint ≡ mint_of rt k → Backed rt l t' k a (s + n)
  issued e =
      follow a (s + n) b m.same_owners minted_covered
        (let recorded = b.recorded in let more = m.issued in ground arith)

  pub issued_elsewhere : mint_of rt k ≢ mint → Backed rt l t' k a s
  issued_elsewhere ne =
      follow a s b m.same_owners minted_covered
        (let recorded = b.recorded in let same = m.other_supply (mint_of rt k) ne in ground arith)

-- cTokens burnt.
module _ {T : Type 0} {rt : Runtime T} {l : Ledger T} {mint from authority : Pubkey} {n : ℕ}
    {t t' : T} {k : Pubkey} {a s : ℕ} (m : Burnt l mint from authority n t t')
    (b : Backed rt l t k a s) (ne : from ≢ vault_of rt k) where
  burnt_covered : a ≤ l.balance t' (vault_of rt k)
  burnt_covered =
      let covered = b.covered in let more = burnt_beside (vault_of rt k) m ne in ground arith

  pub retired : {s' : ℕ} → mint ≡ mint_of rt k → s' + n ≡ s → Backed rt l t' k a s'
  retired {s'} e d =
      follow a s' b m.same_owners burnt_covered
        (let recorded = b.recorded in let less = m.retired in ground arith)

  pub retired_elsewhere : mint_of rt k ≢ mint → Backed rt l t' k a s
  retired_elsewhere other =
      follow a s b m.same_owners burnt_covered (
        let recorded = b.recorded in let same = m.other_supply (mint_of rt k) other in ground arith)

-- New accounts and mints, beside those of a pool.
module _ {T : Type 0} {rt : Runtime T} {l : Ledger T} {t t' : T} {k : Pubkey} {a s : ℕ}
    (b : Backed rt l t k a s) where
  pub account_opened :
      {account authority : Pubkey} → OpenedAccount l account authority t t' → Backed rt l t' k a s
  account_opened m =
      let same = m.elsewhere (vault_of rt k) (opened-ne b.guard m) in
      let supply = m.same_supply (mint_of rt k) in
      let covered = b.covered in
      let recorded = b.recorded in
      record { covered = ground arith; recorded = ground arith; guard = guard_beside b.guard m }

  pub mint_opened :
      {mint : Pubkey} → OpenedMint l mint t t' → mint_of rt k ≢ mint → Backed rt l t' k a s
  mint_opened m ne =
      let covered = b.covered in
      let recorded = b.recorded in
      let same = m.same_balance (vault_of rt k) in
      let supply = m.other_supply (mint_of rt k) ne in
      follow a s b m.same_owners (ground arith) (ground arith)

  -- The pool's own mint.
  pub mint_started :
      {mint : Pubkey} → OpenedMint l mint t t' → mint ≡ mint_of rt k → Backed rt l t' k a 0
  mint_started m e =
      let covered = b.covered in
      let same = m.same_balance (vault_of rt k) in
      let empty = m.empty in follow a 0 b m.same_owners (ground arith) (ground arith)

-- A new vault, for a program address.
pub vault_started :
    {T : Type 0} {rt : Runtime T} {l : Ledger T} {t t' : T} {account authority : Pubkey}
    (k : Pubkey) (seeds : List Seed) (bump : ℕ)
    → OpenedAccount l account authority t t'
    → account ≡ vault_of rt k
    → rt.create_program_address seeds bump ≡ some authority
    → Backed rt l t' k 0 (l.supply t' (mint_of rt k))
vault_started {rt} k seeds bump m e p = record {
  covered = omega arith;
  recorded = refl;
  guard = guard_of_new (vault_of rt k) seeds bump m e p;
}
