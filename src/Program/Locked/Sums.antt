-- ===== src/Program/Locked/Sums.antt =====
-- Sums of amounts over all keys below a bound, and what a change at one key does to them.
use veil_vault.Base.{ℕ, zero, suc, ◌+◌, ◌≤◌, ◌<◌, ◌≡◌, ◌≢◌, refl, arith, Bool-cases, inl, inr, leb}

abbrev pub total : (ℕ → ℕ) → ℕ → ℕ
total f zero = 0
total f (suc n) = total f n + f n

pub total_same : (f g : ℕ → ℕ) → ((k : ℕ) → g k ≡ f k) → (n : ℕ) → total g n ≡ total f n
total_same f g e zero = refl
total_same f g e (suc n) = let rest = total_same f g e n in let here = e n in omega arith

total_mono : (f : ℕ → ℕ) (m n : ℕ) → m ≤ n → total f m ≤ total f n
total_mono f m zero le = ground arith
total_mono f m (suc n) le = elim (Bool-cases (leb m n)) [
  | inl e ↦ let rest = total_mono f m n in ground arith
  | inr e ↦ let same : m ≡ suc n = ground arith in rw same (omega arith)
]

module _ (f g : ℕ → ℕ) (k : ℕ) (others : (j : ℕ) → j ≢ k → g j ≡ f j) where
  total_before : (n : ℕ) → n ≤ k → total g n ≡ total f n
  total_before zero le = refl
  total_before (suc n) le =
      let rest = total_before n (omega arith) in let here = others n in ground arith

  total_after : (n : ℕ) → k < n → total g n + f k ≡ total f n + g k
  total_after zero lt = omega arith
  total_after (suc n) lt = elim (Bool-cases (leb n k)) [
    | inl e ↦
        let same : n ≡ k = ground arith in
        let before = total_before k (omega arith) in rw same (omega arith)
    | inr e ↦ let rest = total_after n in let here = others n in ground arith
  ]

  -- The sums stay below a bound that grows with the amount at the key.
  pub total_grown :
      (x b b' : ℕ)
      → g k ≡ f k + x
      → b + x ≤ b'
      → ((n : ℕ) → total f n ≤ b)
      → (n : ℕ) → total g n ≤ b'
  total_grown x b b' e le all n = elim (Bool-cases (leb n k)) [
    | inl h ↦ let before = total_before n in let here = all n in ground arith
    | inr h ↦ let after = total_after n in let here = all n in ground arith
  ]

  -- And below one that shrinks with it.
  pub total_shrunk :
      (x b b' : ℕ)
      → g k + x ≡ f k
      → b ≤ b' + x
      → ((n : ℕ) → total f n ≤ b)
      → (n : ℕ) → total g n ≤ b'
  total_shrunk x b b' e le all n = elim (Bool-cases (leb n k)) [
    | inl h ↦
        let before = total_before n in
        let less = total_mono f n k in let whole = all (suc k) in ground arith
    | inr h ↦ let after = total_after n in let here = all n in ground arith
  ]
