-- ===== src/Program/Records.antt =====
-- How a step of the program may change the records of confidential positions.
use veil_vault.Base.{ℕ, Bool, true, false, ◌≡◌, refl, Option, some, ok, or_missing, arith}
use veil_vault.Constants.{Pubkey}
use veil_vault.Runtime.{Runtime, stored}
use veil_vault.Arcium.{Encrypted}
use veil_vault.Program.Sound.{IsSound}
use veil_vault.Private.{Chain, PrivateObligation, private_seeds, store_encrypted}
use veil_vault.Private.Setup.{reset, store_initial, or_new}
use veil_vault.Private.DepositCollateral.{note_collateral_reserve}
use veil_vault.Private.Borrow.{note_borrow_reserve}
use veil_vault.Private.Check.{flag}

abbrev pub Records : Type 0
Records = Pubkey → Option PrivateObligation

-- The same owner, market and bump, and still initialized where it was.
abbrev pub SameRecord : PrivateObligation → PrivateObligation → Type 0
SameRecord po po' =
    (po'.bump ≡ po.bump)
    × (po'.owner ≡ po.owner)
    × (po'.lending_market ≡ po.lending_market)
    × (po.is_initialized ≡ true → po'.is_initialized ≡ true)

-- The address and the bump are those of the record's market and owner.
abbrev pub IsDerived : {T : Type 0} → Runtime T → Pubkey → PrivateObligation → Type 0
IsDerived rt k po =
    ((rt.find_program_address (private_seeds po.lending_market po.owner)).0 ≡ k)
    × (po.bump ≡ (rt.find_program_address (private_seeds po.lending_market po.owner)).1)

-- No record changes, or one does: a record that is not initialized is opened again, or a record
-- stays that of its owner.
pub data PrivateMove {T : Type 0} (rt : Runtime T) (f : Records) : Records → Type 0 where
  same : PrivateMove rt f f
  opened :
      (k : Pubkey) (po : PrivateObligation)
      → (or_new (f k)).is_initialized ≡ false
      → IsDerived rt k po
      → PrivateMove rt f (stored f k po)
  updated :
      (k : Pubkey) (po po' : PrivateObligation)
      → f k ≡ some po
      → SameRecord po po'
      → PrivateMove rt f (stored f k po')

-- What an instruction makes of a chain.
abbrev pub Keeps : {T Q : Type 0} → Runtime T → Chain T Q → Chain T Q → Type 0
Keeps rt c c' = IsSound c'.world × PrivateMove rt c.private_obligations c'.private_obligations

pub rewritten :
    {T : Type 0} {rt : Runtime T} {f : Records} (k : Pubkey) (po po' : PrivateObligation)
    → or_missing (f k) ≡ ok po
    → SameRecord po po'
    → PrivateMove rt f (stored f k po')
rewritten k po po' h e = PrivateMove.updated k po po' (ground arith) e

pub reset_lem :
    (bump payer market : ℕ) (po po' : PrivateObligation)
    → reset bump payer market po ≡ ok po'
    → (po.is_initialized ≡ false)
      × (po'.owner ≡ payer)
      × (po'.lending_market ≡ market)
      × (po'.bump ≡ bump)
unfolding reset
reset_lem bump payer market po po' h = ground arith

module _ (po : PrivateObligation) where
  pub store_encrypted-SameRecord : (enc : Encrypted) → SameRecord po (store_encrypted enc po)
  unfolding store_encrypted
  store_encrypted-SameRecord enc = (refl, refl, refl, λ e. e)

  pub store_initial-SameRecord : (enc : Encrypted) → SameRecord po (store_initial enc po)
  unfolding store_initial
  store_initial-SameRecord enc = (refl, refl, refl, λ e. refl)

  pub note_collateral_reserve-SameRecord :
      (k : Pubkey) → SameRecord po (note_collateral_reserve k po)
  unfolding note_collateral_reserve
  note_collateral_reserve-SameRecord k =
      (ground arith, ground arith, ground arith, λ e. ground arith)

  pub note_borrow_reserve-SameRecord : (k : Pubkey) → SameRecord po (note_borrow_reserve k po)
  unfolding note_borrow_reserve
  note_borrow_reserve-SameRecord k = (ground arith, ground arith, ground arith, λ e. ground arith)

  pub flag-SameRecord : (b : Bool) → SameRecord po (flag b po)
  unfolding flag
  flag-SameRecord b = (ground arith, ground arith, ground arith, λ e. ground arith)
