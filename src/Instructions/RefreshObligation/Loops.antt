-- ===== src/Instructions/RefreshObligation/Loops.antt =====
-- Loops over the slots, each of whose rounds is about the slot of its index.
use mathlib.Core.Path.{subst}
use veil_vault.Base.{
  ℕ, zero, suc, ◌+◌, ◌≤◌, ◌<◌, ◌≡◌, ◌≢◌, arith, Result, ◌==◌, Bool-cases, inl, inr, Ensures, step,
  returns,
}
use veil_vault.Instructions.RefreshObligation.{for_range}

module _ {S : Type 0} (P : ℕ → S → Type 0) (body : ℕ → S → Result S)
    (done : (i : ℕ) (s : S) → Ensures (P i) (body i s))
    (kept : (i j : ℕ) (s : S) → j ≢ i → P j s → Ensures (P j) (body i s)) where
  for_range-kept :
      (j rounds i : ℕ) (s : S) → j < i → P j s → Ensures (P j) (for_range body rounds i s)
  unfolding for_range
  for_range-kept j zero i s lt p = returns p
  for_range-kept j (suc rounds) i s lt p = step (body i s) λ s' h.
      for_range-kept j rounds (suc i) s' (omega arith)
        ((kept i j s (λ e. omega arith) p).holds s' h)

  -- What a round makes of its slot holds for every slot that the loop reaches.
  pub for_range-all :
      (rounds i : ℕ) (s : S) (j : ℕ)
      → i ≤ j
      → j < i + rounds
      → Ensures (P j) (for_range body rounds i s)
  unfolding for_range
  for_range-all zero i s j le lt = absurd (omega arith)
  for_range-all (suc rounds) i s j le lt = step (body i s) λ s' h. elim (Bool-cases (j == i)) [
    | inl e ↦
        let same : i ≡ j = ground arith in
        for_range-kept j rounds (suc i) s' (omega arith)
          (subst (λ x. P x s') same ((done i s).holds s' h))
    | inr e ↦
        let ne : j ≢ i = ground arith in
        for_range-all rounds (suc i) s' j (omega arith) (omega arith)
  ]

-- A loop whose rounds keep an invariant keeps it.
pub for_range-keeps :
    {S : Type 0} (P : S → Type 0) (body : ℕ → S → Result S)
    → ((i : ℕ) (s : S) → P s → Ensures P (body i s))
    → (rounds i : ℕ) (s : S) → P s
    → Ensures P (for_range body rounds i s)
unfolding for_range
for_range-keeps P body keep zero i s p = returns p
for_range-keeps P body keep (suc rounds) i s p =
    step (body i s) λ s' h. for_range-keeps P body keep rounds (suc i) s' ((keep i s p).holds s' h)
