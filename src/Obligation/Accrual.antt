-- ===== src/Obligation/Accrual.antt =====
-- Interest on the slots of an obligation.
use veil_vault.Base.{
  ℕ, ◌≡◌, refl, inl, inr, some, ok, arith, Option-cases, Result-cases, List, [], ◌∷◌, zero, suc,
  set, get_elem?, position, ◌==◌, ◌∙◌,
}
use veil_vault.Obligation.{Obligation, ObligationLiquidity, accrue_slot, accrue_interest}
use veil_vault.Constants.{Pubkey}
use veil_vault.Obligation.Keys.{find, get-position, find-set_hit}
use veil_vault.Obligation.Valid.{IsValid, borrow_key}
use veil_vault.Obligation.Borrows.{put, put_same-IsValid}

accrue_slot-key :
    (index : ℕ) (b b' : ObligationLiquidity)
    → accrue_slot index b ≡ ok b'
    → borrow_key b' ≡ borrow_key b
unfolding accrue_slot
accrue_slot-key index b b' h = ground arith

-- Interest on a slot of an obligation keeps the obligation valid and the deposits as they are.
pub accrue_interest-IsValid :
    (i index : ℕ) (o o' : Obligation)
    → IsValid o
    → accrue_interest i index o ≡ ok o'
    → IsValid o' × (o'.deposits ≡ o.deposits)
unfolding accrue_interest
accrue_interest-IsValid i index o o' v h = elim (Option-cases (get_elem? o.borrows i)) [
  | inl e ↦ absurd (ground arith)
  | inr (b, g) ↦ elim (Result-cases (accrue_slot index b)) [
    | inl (e, q) ↦ absurd (ground arith)
    | inr (b', q) ↦
        let e : o' ≡ put o i b' = ground arith in
        rw e (put_same-IsValid o i b b' g (accrue_slot-key index b b' q) v, refl)
  ]
]

pub get_elem?-set :
    {A : Type 0} (xs : List A) (i : ℕ) (x v : A)
    → get_elem? xs i ≡ some x
    → get_elem? (set xs i v) i ≡ some v
get_elem?-set [] i x v h = cc
get_elem?-set (y ∷ ys) zero x v h = refl
get_elem?-set (y ∷ ys) (suc i) x v h = get_elem?-set ys i x v h

-- The slot of a reserve is still its slot after the accrual.
pub accrue_interest-found :
    (r : Pubkey) (i index : ℕ) (o o' : Obligation)
    → position (λ x. borrow_key x == r) o.borrows ≡ some i
    → accrue_interest i index o ≡ ok o'
    → (b : ObligationLiquidity) × (get_elem? o'.borrows i ≡ some b)
      × (find borrow_key r o'.borrows ≡ some b)
unfolding accrue_interest
accrue_interest-found r i index o o' p h =
    let (b, g, f, k) = get-position borrow_key r o.borrows i p in
    elim (Result-cases (accrue_slot index b)) [
      | inl (e, q) ↦ absurd (ground arith)
      | inr (b', q) ↦
          let e : o' ≡ put o i b' = ground arith in
          rw e (
            b',
            get_elem?-set o.borrows i b b' g,
            find-set_hit borrow_key r o.borrows i b' p (accrue_slot-key index b b' q ∙ k),
          )
    ]
