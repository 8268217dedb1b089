-- ===== src/Program/Locked/Defs.antt =====
-- The cTokens that a reserve's account holds for positions, against what positions have locked.
use mathlib.Core.Path.{ap}
use veil_vault.Base.{
  ℕ, ◌≤◌, ◌≡◌, ◌≢◌, ◌∙◌, refl, sym, Option, none, some, ok, arith, or_missing, ◌==◌, Bool-cases,
  inl, inr,
}
use veil_vault.Constants.{Pubkey}
use veil_vault.Reserve.{Reserve}
use veil_vault.Obligation.{Obligation}
use veil_vault.Obligation.Valid.{deposited}
use veil_vault.Runtime.{Runtime, World, stored}
use veil_vault.Tokens.{locker_of}
use veil_vault.Tokens.Effects.{Ledger}
use veil_vault.Program.Custody.{Kept}
use veil_vault.Program.Locked.Sums.{total, total_same}

-- What the obligation at an address has locked at a reserve.
abbrev pub locked_of : Pubkey → Option Obligation → ℕ
locked_of reserve none = 0
locked_of reserve (some o) = deposited o reserve

abbrev pub locked_at : (Pubkey → Option Obligation) → (reserve at : Pubkey) → ℕ
locked_at obligations reserve at = locked_of reserve (obligations at)

module _ {T : Type 0} (rt : Runtime T) (l : Ledger T) where
  -- All that is locked at a reserve, summed over the obligations at any number of addresses, is in
  -- the reserve's account, from which a program address alone may spend.
  pub record Secured (t : T) (obligations : Pubkey → Option Obligation) (reserve : Pubkey)
      : Type 0 where
    pub enough :
        (n : ℕ) → total (locked_at obligations reserve) n ≤ l.balance t (locker_of rt reserve)
    pub guard : Kept rt l t (locker_of rt reserve)

  -- Every stored reserve is secured, and nothing is locked at another.
  pub record AllSecured (t : T) (reserves : Pubkey → Option Reserve)
      (obligations : Pubkey → Option Obligation) : Type 0 where
    pub secured : (k : Pubkey) (r : Reserve) → reserves k ≡ some r → Secured t obligations k
    pub unopened :
        (k : Pubkey) → k ≢ 0 → reserves k ≡ none → (j : Pubkey) → locked_at obligations k j ≡ 0

  abbrev pub IsSecured : World T → Type 0
  IsSecured w = AllSecured w.tokens w.reserves w.obligations

  -- The accounts of positions do not lose, and stay with the program.
  pub record Holds (t t' : T) : Type 0 where
    pub holds :
        (k : Pubkey)
        → Kept rt l t (locker_of rt k)
        → (l.balance t (locker_of rt k) ≤ l.balance t' (locker_of rt k))
          × Kept rt l t' (locker_of rt k)

-- The same reserves are there, whatever they hold.
pub record SameReserves (f g : Pubkey → Option Reserve) : Type 0 where
  pub there : (k : Pubkey) (r : Reserve) → g k ≡ some r → (r' : Reserve) × (f k ≡ some r')
  pub absent : (k : Pubkey) → g k ≡ none → f k ≡ none

pub stored-SameReserves :
    (f : Pubkey → Option Reserve) (k : Pubkey) {r : Reserve} (r' : Reserve)
    → or_missing (f k) ≡ ok r
    → SameReserves f (stored f k r')
stored-SameReserves f k {r} r' h = record {
  there = λ j x e. elim (Bool-cases (j == k)) [
    | inl same ↦ (r, ground arith)
    | inr other ↦ (x, ground arith)
  ];
  absent = λ j e. ground arith;
}

pub same-SameReserves : (f : Pubkey → Option Reserve) → SameReserves f f
same-SameReserves f = record { there = λ k r e. (r, e); absent = λ k e. e }

pub SameReserves-trans :
    {f g h : Pubkey → Option Reserve} → SameReserves f g → SameReserves g h → SameReserves f h
SameReserves-trans a b = record {
  there = λ k r e. let (r', e') = b.there k r e in a.there k r' e';
  absent = λ k e. a.absent k (b.absent k e);
}

-- The same is locked at every reserve.
pub record SameLocks (f g : Pubkey → Option Obligation) : Type 0 where
  pub same : (k : Pubkey) → k ≢ 0 → (j : Pubkey) → locked_at g k j ≡ locked_at f k j

pub same-SameLocks : (f : Pubkey → Option Obligation) → SameLocks f f
same-SameLocks f = record { same = λ k ne j. refl }

-- A loaded obligation is written back with the same deposits.
pub stored-SameLocks :
    (f : Pubkey → Option Obligation) (at : Pubkey) {o : Obligation} (o' : Obligation)
    → or_missing (f at) ≡ ok o
    → ((k : Pubkey) → k ≢ 0 → deposited o' k ≡ deposited o k)
    → SameLocks f (stored f at o')
stored-SameLocks f at {o} o' h e = record {
  same = λ k ne j. elim (Bool-cases (j == at)) [
    | inl same ↦
        let found : f j ≡ some o = ground arith in
        let now : stored f at o' j ≡ some o' = ground arith in
        ap (locked_of k) now ∙ e k ne ∙ sym (ap (locked_of k) found)
    | inr other ↦ let found : stored f at o' j ≡ f j = ground arith in ap (locked_of k) found
  ];
}

module _ {T : Type 0} {rt : Runtime T} {l : Ledger T} {t : T} {reserves : Pubkey → Option Reserve}
    {obligations : Pubkey → Option Obligation} (all : AllSecured rt l t reserves obligations)
    (no_default : reserves 0 ≡ none) where
  pub stored-ne : (k : Pubkey) (r : Reserve) → reserves k ≡ some r → k ≢ 0
  stored-ne k r h e = ground (arith, no_default)

  pub held-AllSecured :
      {t' : T} (reserves' : Pubkey → Option Reserve) (obligations' : Pubkey → Option Obligation)
      → Holds rt l t t'
      → SameReserves reserves reserves'
      → SameLocks obligations obligations'
      → AllSecured rt l t' reserves' obligations'
  held-AllSecured {t'} reserves' obligations' h same locks = record {
    secured = λ k r e.
        let (r0, e0) = same.there k r e in
        let ne = stored-ne k r0 e0 in
        let old = all.secured k r0 e0 in
        let (more, guard) = h.holds k old.guard in
        record {
          enough = λ n.
              let sums =
                total_same (locked_at obligations k) (locked_at obligations' k) (locks.same k ne)
                  n in
              let enough = old.enough n in omega arith;
          guard = guard;
        };
    unopened = λ k ne e j. locks.same k ne j ∙ all.unopened k ne (same.absent k e) j;
  }
