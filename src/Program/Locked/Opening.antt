-- ===== src/Program/Locked/Opening.antt =====
-- programs/veilvault/src/instructions/add_reserve.rs, and what positions have locked.
use mathlib.Core.Path.{subst}
use veil_vault.Base.{
  ℕ, zero, suc, ◌≡◌, ◌≢◌, refl, sym, Option, none, ok, arith, ◌==◌, Bool-cases, inl, inr, Ensures,
  follows,
}
use veil_vault.Constants.{Pubkey}
use veil_vault.Market.{LendingMarket}
use veil_vault.Reserve.{Reserve}
use veil_vault.Reserve.Config.{InitReserveConfigParams}
use veil_vault.Obligation.{Obligation}
use veil_vault.Runtime.{Clock, Runtime, World, stored, reserve_seeds}
use veil_vault.Tokens.{TokenLaws, locker_of}
use veil_vault.Tokens.Effects.{Ledger, OpenedAccount, OpenedMint}
use veil_vault.Instructions.Admin.{AddReserveAccounts, add_reserve, check_owner}
use veil_vault.Instructions.Traces.Admin.{add_reserve-Added}
use veil_vault.Program.Custody.{guard_on, guard_beside, guard_of_new, opened-ne}
use veil_vault.Program.NewVaults.{Created, create_vaults-Created, check_owner-program}
use veil_vault.Program.Locked.Sums.{total}
use veil_vault.Program.Locked.Defs.{AllSecured, IsSecured, Secured, Holds, locked_at}
use veil_vault.Program.Locked.Moves.{Holds-trans}

module _ {T : Type 0} {rt : Runtime T} {l : Ledger T} {t t' : T} where
  opened-Holds : {new authority : Pubkey} → OpenedAccount l new authority t t' → Holds rt l t t'
  opened-Holds m = record {
    holds = λ k b.
        let same = m.elsewhere (locker_of rt k) (opened-ne b m) in (omega arith, guard_beside b m);
  }

  mint_opened-Holds : {mint : Pubkey} → OpenedMint l mint t t' → Holds rt l t t'
  mint_opened-Holds m = record {
    holds = λ k b.
        let same = m.same_balance (locker_of rt k) in (omega arith, guard_on b m.same_owners);
  }

pub total_zero : (f : ℕ → ℕ) → ((k : ℕ) → f k ≡ 0) → (n : ℕ) → total f n ≡ 0
total_zero f e zero = refl
total_zero f e (suc n) = let rest = total_zero f e n in let here = e n in omega arith

module _ {T : Type 0} (rt : Runtime T) (l : Ledger T) (laws : TokenLaws rt l)
    (a : AddReserveAccounts) where
  created-Holds : (t t' : T) → Created rt l a t t' → Holds rt l t t'
  created-Holds t t' c =
      Holds-trans (Holds-trans (opened-Holds c.vault) (opened-Holds c.fees))
        (Holds-trans (mint_opened-Holds c.mint) (opened-Holds c.locker))

  added-AllSecured :
      {t t' : T} {reserves : Pubkey → Option Reserve} {obligations : Pubkey → Option Obligation}
      (m : LendingMarket) (r : Reserve)
      → AllSecured rt l t reserves obligations
      → a.reserve ≢ 0
      → reserves a.reserve ≡ none
      → check_owner rt a.owner a.lending_market m ≡ ok tt
      → Created rt l a t t'
      → AllSecured rt l t' (stored reserves a.reserve r) obligations
  added-AllSecured {t} {t'} {reserves} {obligations} m r all ne unused h c = record {
    secured = λ k b e. elim (Bool-cases (k == a.reserve)) [
      | inl same ↦
          let key : a.reserve ≡ k = ground arith in
          subst (Secured rt l t' obligations) key (record {
            enough = λ n.
                let sum =
                  total_zero (locked_at obligations a.reserve) (all.unopened a.reserve ne unused)
                    n in
                omega arith;
            guard =
                guard_of_new (locker_of rt a.reserve) _ _ c.locker c.locker_at
                  (check_owner-program rt a.owner a.lending_market m h);
          })
      | inr other ↦
          let old = all.secured k b (ground arith) in
          let (more, guard) = (created-Holds t t' c).holds k old.guard in
          record { enough = λ n. let before = old.enough n in omega arith; guard = guard }
    ];
    unopened = λ k n e j. all.unopened k n (ground arith) j;
  }

  -- No program address is the default key.
  pub add_reserve-IsSecured :
      (config : InitReserveConfigParams) (clock : Clock) (w : World T)
      → (rt.find_program_address (reserve_seeds a.lending_market a.reserve_mint)).0 ≢ 0
      → IsSecured rt l w
      → Ensures (IsSecured rt l) (add_reserve rt a config clock w)
  add_reserve-IsSecured config clock w off all =
      follows (add_reserve-Added rt a config clock w) λ w' h.
        let created = (create_vaults-Created rt l laws a h.decimals w.tokens).holds h.t h.t_is in
        let at = h.seeded in
        let unused = h.unused in
        subst (IsSecured rt l) (sym h.made)
          (added-AllSecured h.m h.r all (λ e. off (ground arith)) (ground arith) h.checked created)
