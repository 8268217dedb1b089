-- ===== src/Tests/TokenProgram.antt =====
-- A small token program and a rule for program addresses, for the theorems on vaults.
use Prim.Native.Nat.{Ordering}
use Prim.Native.String.{String, compare}
use mathlib.Core.Path.{subst}
use veil_vault.Base.{
  ℕ, ◌+◌, ◌-◌, ◌*◌, ◌≡◌, refl, Bool, true, false, ◌&&◌, Option, none, some, List, [], ◌∷◌, arith,
  leb, ◌==◌, if◌then◌else◌, inl,
}
use veil_vault.Constants.{Pubkey}
use veil_vault.Runtime.{Runtime, Seed, text, key, is_key, stored}
use veil_vault.Tokens.{AddressLaws, TokenLaws}
use veil_vault.Tokens.Effects.{Ledger, Moved, Minted, Burnt, OpenedAccount, OpenedMint}

abbrev same_text : Ordering → Bool
same_text Ordering.lt = false
same_text Ordering.eq = true
same_text Ordering.gt = false

abbrev tag : String → ℕ
tag s =
    if same_text (compare s "liquidity_vault")
    then 0
    else if same_text (compare s "collateral_mint")
    then 1
    else if same_text (compare s "collateral_supply")
    then 2
    else 3

-- A vault of reserve `k` has the address 1000k + 100, and the reserve of mint `k` has 500 + k.
abbrev address : List Seed → ℕ
address (text s ∷ key k ∷ []) = 99 + 1_000 * k + tag s
address (text s ∷ key m ∷ key k ∷ []) = 499 + k
address _ = 99

pub record Books : Type 0 where
  pub balances : Pubkey → ℕ
  pub owners : Pubkey → Option Pubkey
  pub account_mints : Pubkey → Option Pubkey
  pub supplies : Pubkey → ℕ

abbrev when : Bool → Books → Option Books
when false b = none
when true b = some b

abbrev paid : (from to : Pubkey) → ℕ → (Pubkey → ℕ) → Pubkey → ℕ
paid from to n f k = if k == from then f from - n else if k == to then f to + n else f k

abbrev transfer : (from mint to authority : Pubkey) → (n decimals : ℕ) → Books → Option Books
transfer from mint to authority n decimals b =
    when (is_key (b.owners from) authority && leb n (b.balances from))
      (if from == to then b else record b { balances = paid from to n b.balances })

abbrev mint : (mint to authority : Pubkey) → ℕ → Books → Option Books
mint mint_key to authority n b = some (record b {
  balances = λ k. if k == to then b.balances to + n else b.balances k;
  supplies = λ k. if k == mint_key then b.supplies mint_key + n else b.supplies k;
})

abbrev burn : (mint from authority : Pubkey) → ℕ → Books → Option Books
burn mint_key from authority n b =
    when
      (is_key (b.owners from) authority && (leb n (b.balances from) && leb n (b.supplies mint_key)))
      (record b {
        balances = λ k. if k == from then b.balances from - n else b.balances k;
        supplies = λ k. if k == mint_key then b.supplies mint_key - n else b.supplies k;
      })

abbrev is_none : Option Pubkey → Bool
is_none none = true
is_none (some k) = false

abbrev open_account : (account mint authority : Pubkey) → Books → Option Books
open_account account mint_key authority b = when (is_none (b.owners account)) (record b {
  balances = λ k. if k == account then 0 else b.balances k;
  owners = stored b.owners account authority;
  account_mints = stored b.account_mints account mint_key;
})

abbrev pub bank : Runtime Books
bank = record {
  find_program_address = λ seeds. (1 + address seeds, 255);
  create_program_address = λ seeds bump. some (1 + address seeds);
  token_mint = λ b k. b.account_mints k;
  token_owner = λ b k. b.owners k;
  mint_decimals = λ b k. some 6;
  transfer_checked = transfer;
  mint_to = mint;
  burn = burn;
  init_token_account = open_account;
  init_mint = λ mint_key authority decimals b.
      some (record b { supplies = λ k. if k == mint_key then 0 else b.supplies k });
}

abbrev pub ledger : Ledger Books
ledger = record {
  balance = λ b k. b.balances k;
  owner = λ b k. b.owners k;
  delegate = λ b k. none;
  supply = λ b k. b.supplies k;
}

pub bank-addresses : AddressLaws bank
bank-addresses = record {
  vaults_differ = λ j k e. omega arith;
  mints_differ = λ j k e. omega arith;
  locker-ne = λ j k e. omega arith;
  lockers_differ = λ j k e. omega arith;
}

when-some : (c : Bool) (b b' : Books) → when c b ≡ some b' → (c ≡ true) × (b ≡ b')
when-some c b b' h = ground arith

transfer-Moved :
    (from mint_key to authority : Pubkey) (n decimals : ℕ) (b b' : Books)
    → transfer from mint_key to authority n decimals b ≡ some b'
    → Moved ledger from to authority n b b'
transfer-Moved from mint_key to authority n decimals b b' h =
    let (test, made) = when-some _ _ _ h in
    subst (Moved ledger from to authority n b) made (record {
      authorised = inl (ground arith);
      sent = λ ne. ground arith;
      received = λ ne. ground arith;
      to_itself = λ e. ground arith;
      elsewhere = λ k ne ne'. ground arith;
      same_owners = record { owners = λ k. ground arith; delegates = λ k e. refl };
      same_supply = λ k. ground arith;
    })

burn-Burnt :
    (mint_key from authority : Pubkey) (n : ℕ) (b b' : Books)
    → burn mint_key from authority n b ≡ some b'
    → Burnt ledger mint_key from authority n b b'
burn-Burnt mint_key from authority n b b' h =
    let (test, made) = when-some _ _ _ h in
    subst (Burnt ledger mint_key from authority n b) made (record {
      authorised = inl (ground arith);
      sent = ground arith;
      elsewhere = λ k ne. ground arith;
      same_owners = record { owners = λ k. refl; delegates = λ k e. refl };
      retired = ground arith;
      other_supply = λ k ne. ground arith;
    })

open_account-OpenedAccount :
    (account mint_key authority : Pubkey) (b b' : Books)
    → open_account account mint_key authority b ≡ some b'
    → OpenedAccount ledger account authority b b'
open_account-OpenedAccount account mint_key authority b b' h =
    let (test, made) = when-some _ _ _ h in
    subst (OpenedAccount ledger account authority b) made (record {
      unused = ground arith;
      owned = ground arith;
      undelegated = refl;
      elsewhere = λ k ne. ground arith;
      other_owners = λ k ne. ground arith;
      other_delegates = λ k ne. refl;
      same_supply = λ k. refl;
    })

some_inj : {a b : Books} → some a ≡ some b → a ≡ b
some_inj h = cc

pub bank-laws : TokenLaws bank ledger
bank-laws = record {
  transfers = transfer-Moved;
  mints = λ mint_key to authority n b b' h.
      subst (Minted ledger mint_key to n b) (some_inj h) (record {
        received = ground arith;
        elsewhere = λ k ne. ground arith;
        same_owners = record { owners = λ k. refl; delegates = λ k e. refl };
        issued = ground arith;
        other_supply = λ k ne. ground arith;
      });
  burns = burn-Burnt;
  opens_account = open_account-OpenedAccount;
  opens_mint = λ mint_key authority decimals b b' h.
      subst (OpenedMint ledger mint_key b) (some_inj h) (record {
        same_balance = λ k. refl;
        same_owners = record { owners = λ k. refl; delegates = λ k e. refl };
        empty = ground arith;
        other_supply = λ k ne. ground arith;
      });
}
