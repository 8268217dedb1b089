-- ===== src/Obligation/Keys.antt =====
-- Slots found by their key, where the key 0 marks an empty slot: what writing one slot does to
-- the lookups, to the number of active slots and to the uniqueness of the keys.
use veil_vault.Base.{
  ℕ, zero, suc, ◌+◌, ◌≤◌, ◌≡◌, ◌≢◌, ◌⊎◌, refl, inl, inr, Bool, true, false, Bool-cases,
  Option-cases, Option, none, some, List, [], ◌∷◌, arith, ◌==◌, if◌then◌else◌, position, get_elem?,
  set, length,
}

position_cases {ℓ} :
    {A : Type ℓ} (p : A → Bool) (x : A) (xs : List A) (i : ℕ)
    → position p (x ∷ xs) ≡ some i
    → ((p x ≡ true) × (i ≡ 0))
      ⊎ ((p x ≡ false) × ((j : ℕ) × (position p xs ≡ some j) × (i ≡ suc j)))
unfolding position
position_cases p x xs i h = elim (Option-cases (position p xs)) [
  | inl e ↦ elim (Bool-cases (p x)) [
    | inl t ↦ inl (t, ground arith)
    | inr f ↦ absurd (ground arith)
  ]
  | inr (j, e) ↦ elim (Bool-cases (p x)) [
    | inl t ↦ inl (t, ground arith)
    | inr f ↦ inr (f, (j, e, ground arith))
  ]
]

pub position_holds {ℓ} :
    {A : Type ℓ} (p : A → Bool) (xs : List A) (i : ℕ)
    → position p xs ≡ some i
    → (x : A) × (get_elem? xs i ≡ some x) × (p x ≡ true)
unfolding position
position_holds p [] i h = cc
position_holds p (x ∷ xs) i h = elim (position_cases p x xs i h) [
  | inl (hit, e) ↦ (x, ground arith, hit)
  | inr (miss, (j, q, e)) ↦ let (y, g, f) = position_holds p xs j q in (y, ground arith, f)
]

module _ {A : Type 0} (key : A → ℕ) where
  -- The first slot with a key.
  abbrev pub find : ℕ → List A → Option A
  find k [] = none
  find k (x ∷ xs) = if key x == k then some x else find k xs

  abbrev pub count : List A → ℕ
  count [] = 0
  count (x ∷ xs) = if key x == 0 then count xs else suc (count xs)

  -- No two active slots have one key.
  abbrev pub Unique : List A → Type 0
  Unique [] = Unit
  Unique (x ∷ xs) = ((key x ≡ 0) ⊎ (find (key x) xs ≡ none)) × Unique xs

  pub find-position-none :
      (k : ℕ) (xs : List A) → position (λ x. key x == k) xs ≡ none → find k xs ≡ none
  unfolding position
  find-position-none k [] h = refl
  find-position-none k (x ∷ xs) h = ground (arith, find-position-none k xs)

  pub get-position :
      (k : ℕ) (xs : List A) (i : ℕ)
      → position (λ x. key x == k) xs ≡ some i
      → (x : A) × (get_elem? xs i ≡ some x) × (find k xs ≡ some x) × (key x ≡ k)
  unfolding position
  get-position k [] i h = cc
  get-position k (x ∷ xs) i h = elim (position_cases (λ y. key y == k) x xs i h) [
    | inl (hit, e) ↦ (x, ground arith, ground arith, ground arith)
    | inr (miss, (j, q, e)) ↦
        let (y, g, f, same) = get-position k xs j q in (y, ground arith, ground arith, same)
  ]

  pub find-set_ne :
      (j : ℕ) (xs : List A) (i : ℕ) (x v : A)
      → get_elem? xs i ≡ some x
      → key x ≢ j
      → key v ≢ j
      → find j (set xs i v) ≡ find j xs
  find-set_ne j [] i x v h p q = refl
  find-set_ne j (y ∷ ys) zero x v h p q = ground arith
  find-set_ne j (y ∷ ys) (suc i) x v h p q = ground (arith, find-set_ne j ys i x v h p q)

  pub find-set_hit :
      (k : ℕ) (xs : List A) (i : ℕ) (v : A)
      → position (λ x. key x == k) xs ≡ some i
      → key v ≡ k
      → find k (set xs i v) ≡ some v
  unfolding position
  find-set_hit k [] i v h p = cc
  find-set_hit k (x ∷ xs) i v h p = elim (position_cases (λ y. key y == k) x xs i h) [
    | inl (hit, e) ↦ ground arith
    | inr (miss, (j, q, e)) ↦ ground (arith, find-set_hit k xs j v q p)
  ]

  pub find-set_fresh :
      (k : ℕ) (xs : List A) (i : ℕ) (x v : A)
      → find k xs ≡ none
      → get_elem? xs i ≡ some x
      → key v ≡ k
      → find k (set xs i v) ≡ some v
  find-set_fresh k [] i x v h g p = cc
  find-set_fresh k (y ∷ ys) zero x v h g p = ground arith
  find-set_fresh k (y ∷ ys) (suc i) x v h g p = ground (arith, find-set_fresh k ys i x v)

  absent-get :
      (k : ℕ) (xs : List A) (i : ℕ) (x : A) → find k xs ≡ none → get_elem? xs i ≡ some x → key x ≢ k
  absent-get k [] i x h g = cc
  absent-get k (y ∷ ys) zero x h g = ground arith
  absent-get k (y ∷ ys) (suc i) x h g = ground (arith, absent-get k ys i x)

  find-set_absent :
      (k : ℕ) (xs : List A) (i : ℕ) (v : A)
      → find k xs ≡ none
      → key v ≢ k
      → find k (set xs i v) ≡ none
  find-set_absent k [] i v h p = refl
  find-set_absent k (y ∷ ys) zero v h p = ground arith
  find-set_absent k (y ∷ ys) (suc i) v h p = ground (arith, find-set_absent k ys i v)

  pub find-set_clear :
      (k : ℕ) (xs : List A) (i : ℕ) (v : A)
      → Unique xs
      → k ≢ 0
      → position (λ x. key x == k) xs ≡ some i
      → key v ≡ 0
      → find k (set xs i v) ≡ none
  unfolding position
  find-set_clear k [] i v u n h p = refl
  find-set_clear k (x ∷ xs) i v u n h p = elim (position_cases (λ y. key y == k) x xs i h) [
    | inl (hit, e) ↦ ground arith
    | inr (miss, (j, q, e)) ↦ ground (arith, find-set_clear k xs j v u.1 n q p)
  ]

  pub Unique-set_same :
      (xs : List A) (i : ℕ) (x v : A)
      → get_elem? xs i ≡ some x
      → key v ≡ key x
      → Unique xs
      → Unique (set xs i v)
  Unique-set_same [] i x v h p u = u
  Unique-set_same (y ∷ ys) zero x v h p u = ground arith
  Unique-set_same (y ∷ ys) (suc i) x v h p u = ground (
    arith,
    Unique-set_same ys i x v h p u.1,
    absent-get (key y) ys i x,
    find-set_absent (key y) ys i v,
  )

  pub Unique-set_new :
      (xs : List A) (i : ℕ) (v : A)
      → (key v ≡ 0) ⊎ (find (key v) xs ≡ none)
      → Unique xs
      → Unique (set xs i v)
  Unique-set_new [] i v p u = u
  Unique-set_new (y ∷ ys) zero v p u = ground arith
  Unique-set_new (y ∷ ys) (suc i) v p u =
      ground (arith, Unique-set_new ys i v, find-set_absent (key y) ys i v)

  pub count-set :
      (xs : List A) (i : ℕ) (x v : A)
      → get_elem? xs i ≡ some x
      → count (set xs i v) + (if key x == 0 then 0 else 1)
        ≡ count xs + (if key v == 0 then 0 else 1)
  count-set [] i x v h = cc
  count-set (y ∷ ys) zero x v h = ground arith
  count-set (y ∷ ys) (suc i) x v h = ground (arith, count-set ys i x v h)

  pub count-le-length : (xs : List A) → count xs ≤ length xs
  count-le-length [] = omega arith
  count-le-length (x ∷ xs) = ground (arith, count-le-length xs)
