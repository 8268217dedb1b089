-- ===== src/Obligation/Slots.antt =====
-- Arrays of slots: the slices and sums that the health factor reads.
use veil_vault.Base.{
  ℕ, Option, none, some, List, [], ◌∷◌, Result, or_panic, leb, if◌then◌else◌, saturating_add,
  length, take,
}

-- `&xs[..n]`
unfoldable pub prefix {ℓ} : {A : Type ℓ} → ℕ → List A → Result (List A)
prefix n xs = or_panic (if leb n (length xs) then some (take n xs) else none)

-- `filter(active).fold(0, |acc, x| acc.saturating_add(value))`
module _ {ℓ} {A : Type ℓ} (value : A → Option ℕ) where
  unfoldable pub fold_values : ℕ → List A → ℕ
  fold_values acc [] = acc
  fold_values acc (x ∷ xs) =
      fold_values (elim (value x) [ none ↦ acc | some v ↦ saturating_add 128 acc v ]) xs

  unfoldable pub active_values : List A → ℕ
  unfolding fold_values
  active_values = fold_values 0
