-- ===== src/Program/Gated.antt =====
-- The records of confidential positions along runs, where no callback comes unasked.
pub mod Steps
use veil_vault.Base.{
  ◌≡◌, ◌≢◌, refl, Bool, true, false, ◌||◌, ◌&&◌, ◌==◌, Bool-cases, inl, inr, Option, none, some,
  List, [], ◌∷◌, Result, ok, err, unwrap_or, not, arith, >>=-elim, or_failed, ◌>>=◌, ap, sym, ◌∙◌,
  Option-cases, Result-cases,
}
use mathlib.Core.Path.{subst}
use veil_vault.Constants.{Pubkey, default_key}
use veil_vault.Runtime.{Clock, Runtime, World}
use veil_vault.Arcium.{Arcium}
use veil_vault.Private.{PrivateObligation, Chain, put_world, put_arcium}
use veil_vault.Arcium.{comp_def_accounts_check}
use veil_vault.Private.Setup.{or_new, init_position_comp_def}
use veil_vault.Private.DepositCollateral.{add_collateral_comp_def}
use veil_vault.Private.Borrow.{add_borrow_comp_def}
use veil_vault.Private.Check.{check_health_comp_def}
use veil_vault.Program.{Instruction, process, publicly}
use veil_vault.Program.Run.{run}
use veil_vault.Program.Changes.{process-Changes}
use veil_vault.Program.Changes.Defs.{target, noted, Change, Changes}
use Steps.{asks, answers, IsGated, Change-IsGated, untouched}

module _ {T Q Out : Type 0} (rt : Runtime T) (ar : Arcium Q Out) where
  -- The instruction is about the record at an address.
  abbrev pub about : Pubkey → Instruction Out → Bool
  about k i = elim (target i) [ none ↦ false | some j ↦ j == k ]

  abbrev pub succeeds : Result (Chain T Q) → Bool
  succeeds (ok c) = true
  succeeds (err e) = false

  -- Along a run a callback of an addition or of a health check comes for a record only after an
  -- instruction that succeeded has queued one for it.
  abbrev pub Solicited :
      Pubkey → (asked : Bool) → List (Clock × Instruction Out) → Chain T Q → Type 0
  Solicited k asked [] c = Unit {0}
  Solicited k asked ((clock, i) ∷ is) c =
      (about k i ≡ true → answers i ≡ true → asked ≡ true)
      × Solicited k (asked || about k i && asks i && succeeds (process rt ar clock i c)) is
          (unwrap_or (process rt ar clock i c) c)

  abbrev Gated : Pubkey → Bool → Chain T Q → Type 0
  Gated k asked c = IsGated asked (or_new (c.private_obligations k))

  same_record :
      (k : Pubkey) (asked : Bool) (c c' : Chain T Q)
      → c'.private_obligations k ≡ c.private_obligations k
      → Gated k asked c
      → Gated k asked c'
  same_record k asked c c' e g = subst (λ x. IsGated asked (or_new x)) (sym e) g

  process-Gated :
      (k : Pubkey) (asked : Bool) (clock : Clock) (i : Instruction Out) (c c' : Chain T Q)
      → (about k i ≡ true → answers i ≡ true → asked ≡ true)
      → process rt ar clock i c ≡ ok c'
      → Gated k asked c
      → Gated k (asked || about k i && asks i) c'
  process-Gated k asked clock i c c' w h g = elim (Option-cases (target i)) [
    | inl e ↦
        let unasked : (asked || about k i && asks i) ≡ asked = ground arith in
        rw unasked (same_record k asked c c' (ap (λ f. f k) (untouched rt ar clock i c c' e h)) g)
    | inr (j, e) ↦ elim (Bool-cases (j == k)) [
      | inl here ↦
          let hit : target i ≡ some k = ground arith in
          let named : about k i ≡ true = ground arith in
          let asking : (asked || about k i && asks i) ≡ (asked || asks i) = ground arith in
          let made = process-Changes rt ar clock i c c' k hit h in
          rw (asking, made.written)
            (Change-IsGated rt ar asked i _ made.after c.arcium c'.arcium k hit made.change
              (w named) g)
      | inr other ↦
          let unasked : (asked || about k i && asks i) ≡ asked = ground arith in
          let made = process-Changes rt ar clock i c c' j e h in
          rw unasked (same_record k asked c c' (made.others k (ground arith)) g)
    ]
  ]

  run-Gated :
      (k : Pubkey) (asked : Bool) (is : List (Clock × Instruction Out)) (c : Chain T Q)
      → Solicited k asked is c
      → Gated k asked c
      → Gated k false (run rt ar is c)
  unfolding run
  run-Gated k asked [] c s g = record {
    flagged = g.flagged;
    deposited = g.deposited;
    borrowed = g.borrowed;
    awaited = λ e. absurd cc;
  }
  run-Gated k asked ((clock, i) ∷ is) c s g = elim (Result-cases (process rt ar clock i c)) [
    | inl (x, e) ↦
        let missed : (asked || about k i && asks i && succeeds (process rt ar clock i c)) ≡ asked =
          ground arith in
        let next : unwrap_or (process rt ar clock i c) c ≡ c = ground arith in
        rw (run, next)
          (run-Gated k asked is c
            (subst (λ d. Solicited k asked is d) next
              (subst (λ b. Solicited k b is (unwrap_or (process rt ar clock i c) c)) missed (s.1)))
            g)
    | inr (c', e) ↦
        let made : (asked || about k i && asks i && succeeds (process rt ar clock i c))
            ≡ (asked || about k i && asks i) =
          ground arith in
        let next : unwrap_or (process rt ar clock i c) c ≡ c' = ground arith in
        rw (run, next)
          (run-Gated k (asked || about k i && asks i) is c'
            (subst (λ d. Solicited k (asked || about k i && asks i) is d) next
              (subst (λ b. Solicited k b is (unwrap_or (process rt ar clock i c) c)) made (s.1)))
            (process-Gated k asked clock i c c' (s.0) e g))
  ]

  -- Where no record is stored at an address, and callbacks of additions and of health checks come
  -- for it only after one was queued for it: at the end of every run, if the record there is
  -- flagged or has a reserve of either side, it is initialized.
  pub run-IsGated :
      (k : Pubkey) (is : List (Clock × Instruction Out)) (c : Chain T Q)
      → c.private_obligations k ≡ none
      → Solicited k false is c
      → IsGated false (or_new ((run rt ar is c).private_obligations k))
  run-IsGated k is c fresh s = run-Gated k false is c s (
      rw fresh (record {
        flagged = λ e. absurd cc;
        deposited = λ e. absurd (e refl);
        borrowed = λ e. absurd (e refl);
        awaited = λ e. absurd cc;
      }))
