-- ===== src/Program/Backing/Calls.antt =====
-- The calls of the token program as the instructions make them.
use veil_vault.Base.{ℕ, ◌≡◌, ok, arith, or_failed, or_missing}
use veil_vault.Constants.{Pubkey}
use veil_vault.Reserve.{Reserve}
use veil_vault.Runtime.{Runtime, vault_of, stored}
use veil_vault.Base.{Option}
use veil_vault.Tokens.{IsWallet, AddressLaws, TokenLaws, locker_of}
use veil_vault.Tokens.Effects.{Ledger, Moved, Minted, Burnt}
use veil_vault.Program.Custody.{wallet-ne}
use veil_vault.Program.Backing.Effects.{passed_by, paid_in, paid_out}
use veil_vault.Program.Backing.Counts.{Books, available}
use veil_vault.Program.Backing.Worlds.{
  AllBacked, loaded-Backed, written-AllBacked, moved-AllBacked, recount,
}

module _ {T : Type 0} (rt : Runtime T) (l : Ledger T) (laws : TokenLaws rt l) where
  pub transferred :
      {from to authority : Pubkey} {n : ℕ} {t t' : T} (mint : Pubkey) (decimals : ℕ)
      → or_failed (rt.transfer_checked from mint to authority n decimals t) ≡ ok t'
      → Moved l from to authority n t t'
  transferred {from} {to} {authority} {n} {t} {t'} mint decimals h =
      laws.transfers from mint to authority n decimals t t' (ground arith)

  pub issues :
      {mint to : Pubkey} {n : ℕ} {t t' : T} (authority : Pubkey)
      → or_failed (rt.mint_to mint to authority n t) ≡ ok t'
      → Minted l mint to n t t'
  issues {mint} {to} {n} {t} {t'} authority h = laws.mints mint to authority n t t' (ground arith)

  pub burnt :
      {mint from authority : Pubkey} {n : ℕ} {t t' : T}
      → or_failed (rt.burn mint from authority n t) ≡ ok t'
      → Burnt l mint from authority n t t'
  burnt {mint} {from} {authority} {n} {t} {t'} h =
      laws.burns mint from authority n t t' (ground arith)

module _ {T : Type 0} {rt : Runtime T} {l : Ledger T} {from to authority : Pubkey} {n : ℕ}
    {t t' : T} {reserves : Pubkey → Option Reserve} (all : AllBacked rt l t reserves)
    (m : Moved l from to authority n t t') where
  -- A wallet pays into a vault, and the reserve records it.
  pub paid_in-AllBacked :
      (k : Pubkey) {r r' : Reserve}
      → IsWallet rt authority
      → or_missing (reserves k) ≡ ok r
      → to ≡ vault_of rt k
      → Books r r' n 0 0 0
      → AllBacked rt l t' (stored reserves k r')
  paid_in-AllBacked k {r} {r'} w h e books =
      let tokens = books.tokens in
      let ctokens = books.ctokens in
      let old = loaded-Backed all k h in
      let new = paid_in m old (wallet-ne old.guard authority from w m.authorised) e in
      written-AllBacked all k r' (recount new (ground arith) (ground arith))
        λ j b ne other. passed_by m other (wallet-ne other.guard authority from w m.authorised)

  -- A vault pays out, and its reserve records it.
  pub paid_out-AllBacked :
      AddressLaws rt
      → (k : Pubkey) {r r' : Reserve} → or_missing (reserves k) ≡ ok r
      → from ≡ vault_of rt k
      → Books r r' 0 n 0 0
      → AllBacked rt l t' (stored reserves k r')
  paid_out-AllBacked laws k {r} {r'} h e books =
      let tokens = books.tokens in
      let ctokens = books.ctokens in
      let new = paid_out m (loaded-Backed all k h) {a' = available r'} e (ground arith) in
      written-AllBacked all k r' (recount new (ground arith) (ground arith)) λ j b ne other.
        let differ = laws.vaults_differ j k in passed_by m other λ same. ground arith

  -- A wallet pays, or the account of what positions have locked.
  pub paid_by_wallet-AllBacked : IsWallet rt authority → AllBacked rt l t' reserves
  paid_by_wallet-AllBacked w =
      moved-AllBacked all
        λ j b other. passed_by m other (wallet-ne other.guard authority from w m.authorised)

  pub unlocked-AllBacked :
      AddressLaws rt → (k : Pubkey) → from ≡ locker_of rt k → AllBacked rt l t' reserves
  unlocked-AllBacked laws k e =
      moved-AllBacked all
        λ j b other. let differ = laws.locker-ne k j in passed_by m other λ same. ground arith
