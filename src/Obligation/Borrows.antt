-- ===== src/Obligation/Borrows.antt =====
-- Borrowing and repaying: both refine an update of the map of debts, and repaying forgives dust.
use veil_vault.Base.{
  ℕ, ◌+◌, ◌-◌, ◌*◌, ◌≤◌, ◌<◌, ◌≡◌, ◌≢◌, ◌⊎◌, refl, inl, inr, not, none, some, ok, ◌∙◌, arith,
  length-set, if◌then◌else◌, ◌==◌, ltb, set, get_elem?, position, Option-cases, Bool-cases,
  saturating_add,
}
use veil_vault.Constants.{Pubkey, rate_scale}
use veil_vault.Obligation.{
  Obligation, ObligationLiquidity, liquidity_init, liquidity_default, borrow_is_active,
  find_or_add_borrow, find_borrow, borrow, repay,
}
use veil_vault.Obligation.Keys.{
  find, get-position, position_holds, find-position-none, find-set_hit, find-set_ne, find-set_fresh,
  find-set_clear, Unique-set_same, Unique-set_new, count-set, count-le-length,
}
use veil_vault.Obligation.Valid.{IsValid, Updated, borrow_key, owed}

abbrev pub put : Obligation → ℕ → ObligationLiquidity → Obligation
put o i b = record o { borrows = set o.borrows i b }

-- A successful borrow adds to the slot of the reserve, or opens an empty slot for it.
borrow_cases :
    (r : Pubkey) (a index : ℕ) (o o' : Obligation)
    → r ≢ 0
    → borrow r a index o ≡ ok o'
    → ((i : ℕ) × (b : ObligationLiquidity) × (position (λ x. borrow_key x == r) o.borrows ≡ some i)
        × (get_elem? o.borrows i ≡ some b)
        × (o' ≡ put o i (record b { borrowed_amount_sf = b.borrowed_amount_sf + a * rate_scale })))
      ⊎ ((i : ℕ) × (b : ObligationLiquidity) × (find borrow_key r o.borrows ≡ none)
          × (get_elem? o.borrows i ≡ some b)
          × (borrow_key b ≡ 0)
          × (o'
              ≡ record (put o i
                  (record (liquidity_init r index) { borrowed_amount_sf = 0 + a * rate_scale })) {
                    borrows_count = saturating_add 8 o.borrows_count 1;
                  }))
unfolding borrow find_or_add_borrow
borrow_cases r a index o o' ne h =
    elim (Option-cases (position (λ x. borrow_key x == r) o.borrows)) [
      | inr (i, e) ↦
          let (b, g, f, k) = get-position borrow_key r o.borrows i e in
          inl (i, b, e, g, ground arith)
      | inl e ↦ elim (Option-cases (position (λ x. not (borrow_is_active x)) o.borrows)) [
        | inl full ↦ absurd (ground arith)
        | inr (i, e') ↦
            let (b, g, empty) = position_holds (λ x. not (borrow_is_active x)) o.borrows i e' in
            inr (i, b, find-position-none borrow_key r o.borrows e, g, ground arith, ground arith)
      ]
    ]

-- A write that keeps the key, one that opens an empty slot and one that clears a slot keep the
-- obligation valid.
pub put_same-IsValid :
    (o : Obligation) (i : ℕ) (b b' : ObligationLiquidity)
    → get_elem? o.borrows i ≡ some b
    → borrow_key b' ≡ borrow_key b
    → IsValid o
    → IsValid (put o i b')
put_same-IsValid o i b b' g k v = record {
  unique_deposits = v.unique_deposits;
  unique_borrows = Unique-set_same borrow_key o.borrows i b b' g k v.unique_borrows;
  deposits_counted = v.deposits_counted;
  borrows_counted = ground (arith, v, count-set borrow_key o.borrows i b b' g);
  deposits_length = v.deposits_length;
  borrows_length = length-set o.borrows i b' ∙ v.borrows_length;
}

open-IsValid :
    (o : Obligation) (i : ℕ) (b b' : ObligationLiquidity)
    → get_elem? o.borrows i ≡ some b
    → borrow_key b ≡ 0
    → borrow_key b' ≢ 0
    → find borrow_key (borrow_key b') o.borrows ≡ none
    → IsValid o
    → IsValid (record (put o i b') { borrows_count = saturating_add 8 o.borrows_count 1 })
open-IsValid o i b b' g k k' f v = record {
  unique_deposits = v.unique_deposits;
  unique_borrows = Unique-set_new borrow_key o.borrows i b' (inr f) v.unique_borrows;
  deposits_counted = v.deposits_counted;
  borrows_counted =
      ground
        (arith, v, count-set borrow_key o.borrows i b b' g, count-le-length borrow_key o.borrows);
  deposits_length = v.deposits_length;
  borrows_length = length-set o.borrows i b' ∙ v.borrows_length;
}

clear-IsValid :
    (o : Obligation) (i : ℕ) (b : ObligationLiquidity)
    → get_elem? o.borrows i ≡ some b
    → borrow_key b ≢ 0
    → IsValid o
    → IsValid (record (put o i liquidity_default) { borrows_count = o.borrows_count - 1 })
clear-IsValid o i b g k v = record {
  unique_deposits = v.unique_deposits;
  unique_borrows =
      Unique-set_new borrow_key o.borrows i liquidity_default (inl refl) v.unique_borrows;
  deposits_counted = v.deposits_counted;
  borrows_counted = ground (arith, v, count-set borrow_key o.borrows i b liquidity_default g);
  deposits_length = v.deposits_length;
  borrows_length = length-set o.borrows i liquidity_default ∙ v.borrows_length;
}

-- A successful borrow from a reserve, whose key is not zero, keeps a valid obligation valid, adds
-- the scaled amount to the debt to that reserve and to no other, and leaves the deposits alone.
pub borrow-Updated :
    (r : Pubkey) (a index : ℕ) (o o' : Obligation)
    → r ≢ 0
    → IsValid o
    → borrow r a index o ≡ ok o'
    → IsValid o'
      × Updated (owed o) (owed o') r (owed o r + a * rate_scale)
      × (o'.deposits ≡ o.deposits)
borrow-Updated r a index o o' ne v h = elim (borrow_cases r a index o o' ne h) [
  | inl (i, b, p, g, e) ↦
      let b' = record b { borrowed_amount_sf = b.borrowed_amount_sf + a * rate_scale } in
      let (x, g', f, k) = get-position borrow_key r o.borrows i p in
      rw e (
        put_same-IsValid o i b b' g refl v,
        (
          ground (arith, find-set_hit borrow_key r o.borrows i b' p),
          λ j nz nj. ground (arith, find-set_ne borrow_key j o.borrows i b b' g),
        ),
        refl,
      )
  | inr (i, b, f, g, k, e) ↦
      let b' = record (liquidity_init r index) { borrowed_amount_sf = 0 + a * rate_scale } in
      rw e (
        open-IsValid o i b b' g k ne f v,
        (
          ground (arith, find-set_fresh borrow_key r o.borrows i b b' f g),
          λ j nz nj. ground (arith, find-set_ne borrow_key j o.borrows i b b' g),
        ),
        refl,
      )
]

-- A successful repayment takes from the slot of the reserve, and clears it below one unit.
repay_cases :
    (r : Pubkey) (a : ℕ) (o o' : Obligation)
    → repay r a o ≡ ok o'
    → (i : ℕ) × (b : ObligationLiquidity) × (position (λ x. borrow_key x == r) o.borrows ≡ some i)
      × (get_elem? o.borrows i ≡ some b)
      × (a * rate_scale ≤ b.borrowed_amount_sf)
      × (0 < a)
      × (o' ≡ (
          if ltb (b.borrowed_amount_sf - a * rate_scale) rate_scale
          then record (put o i liquidity_default) { borrows_count = o.borrows_count - 1 }
          else put o i (record b { borrowed_amount_sf = b.borrowed_amount_sf - a * rate_scale })))
unfolding repay find_borrow
repay_cases r a o o' h = elim (Option-cases (position (λ x. borrow_key x == r) o.borrows)) [
  | inl e ↦ absurd (ground arith)
  | inr (i, e) ↦
      let (b, g, f, k) = get-position borrow_key r o.borrows i e in
      (i, b, e, g, ground arith, ground arith, ground arith)
]

-- The debt after a repayment: what is left, or nothing where that is less than one unit.
abbrev pub forgiven : ℕ → ℕ
forgiven left = if ltb left rate_scale then 0 else left

-- A successful repayment to a reserve, whose key is not zero, keeps a valid obligation valid,
-- takes the scaled amount, which was owed to that reserve, from that debt and from no other,
-- forgives a rest below one token unit, and leaves the deposits alone.
pub repay-Updated :
    (r : Pubkey) (a : ℕ) (o o' : Obligation)
    → r ≢ 0
    → IsValid o
    → repay r a o ≡ ok o'
    → IsValid o'
      × (a * rate_scale ≤ owed o r)
      × Updated (owed o) (owed o') r (forgiven (owed o r - a * rate_scale))
      × (o'.deposits ≡ o.deposits)
repay-Updated r a o o' ne v h =
    let (i, b, p, g, le, pos, e) = repay_cases r a o o' h in
    let (x, g', f, k) = get-position borrow_key r o.borrows i p in
    let same : b ≡ x = ground arith in
    elim (Bool-cases (ltb (b.borrowed_amount_sf - a * rate_scale) rate_scale)) [
      | inl gone ↦
          let u = v.unique_borrows in
          rw (e, gone)
            (
              clear-IsValid o i b g (ground arith) v,
              ground arith,
              (
                ground
                    (arith, find-set_clear borrow_key r o.borrows i liquidity_default u ne p refl),
                λ j nz nj.
                    ground (arith, find-set_ne borrow_key j o.borrows i b liquidity_default g),
              ),
              refl,
            )
      | inr rest ↦
          let b' = record b { borrowed_amount_sf = b.borrowed_amount_sf - a * rate_scale } in
          rw (e, rest)
            (
              put_same-IsValid o i b b' g refl v,
              ground arith,
              (
                ground (arith, find-set_hit borrow_key r o.borrows i b' p),
                λ j nz nj. ground (arith, find-set_ne borrow_key j o.borrows i b b' g),
              ),
              refl,
            )
    ]
