-- ===== src/Obligation/Deposits.antt =====
-- Locking and unlocking collateral: both refine an update of the map of locked amounts.
use veil_vault.Base.{
  ℕ, zero, suc, ◌+◌, ◌-◌, ◌≤◌, ◌<◌, ◌≡◌, ◌≢◌, ◌⊎◌, refl, inl, inr, not, none, some, ok, ◌∙◌, arith,
  length-set, if◌then◌else◌, ◌==◌, set, get_elem?, position, Option-cases, Bool-cases,
  saturating_add,
}
use veil_vault.Constants.{Pubkey}
use veil_vault.Obligation.{
  Obligation, ObligationCollateral, collateral_init, collateral_default, deposit_is_active,
  find_or_add_deposit, find_deposit, deposit, withdraw,
}
use veil_vault.Obligation.Keys.{
  find, get-position, position_holds, find-position-none, find-set_hit, find-set_ne, find-set_fresh,
  find-set_clear, Unique-set_same, Unique-set_new, count-set, count-le-length,
}
use veil_vault.Obligation.Valid.{IsValid, Updated, deposit_key, deposited}

abbrev pub put : Obligation → ℕ → ObligationCollateral → Obligation
put o i d = record o { deposits = set o.deposits i d }

deposit_pos : (r : Pubkey) (a : ℕ) (o o' : Obligation) → deposit r a o ≡ ok o' → 0 < a
unfolding deposit
deposit_pos r zero o o' h = absurd (ground arith)
deposit_pos r (suc a) o o' h = omega arith

-- A successful deposit adds to the slot of the reserve, or opens an empty slot for it.
deposit_cases :
    (r : Pubkey) (a : ℕ) (o o' : Obligation)
    → r ≢ 0
    → deposit r a o ≡ ok o'
    → ((i : ℕ) × (d : ObligationCollateral) × (position (λ x. deposit_key x == r) o.deposits
          ≡ some i)
        × (get_elem? o.deposits i ≡ some d)
        × (o' ≡ put o i (record d { deposited_amount = d.deposited_amount + a })))
      ⊎ ((i : ℕ) × (d : ObligationCollateral) × (find deposit_key r o.deposits ≡ none)
          × (get_elem? o.deposits i ≡ some d)
          × (deposit_key d ≡ 0)
          × (o' ≡ record (put o i (record (collateral_init r) { deposited_amount = 0 + a })) {
            deposits_count = saturating_add 8 o.deposits_count 1;
          }))
unfolding deposit find_or_add_deposit
deposit_cases r a o o' ne h = elim (Option-cases (position (λ x. deposit_key x == r) o.deposits)) [
  | inr (i, e) ↦
      let (d, g, f, k) = get-position deposit_key r o.deposits i e in inl (i, d, e, g, ground arith)
  | inl e ↦ elim (Option-cases (position (λ x. not (deposit_is_active x)) o.deposits)) [
    | inl full ↦ absurd (ground arith)
    | inr (i, e') ↦
        let (d, g, empty) = position_holds (λ x. not (deposit_is_active x)) o.deposits i e' in
        inr (i, d, find-position-none deposit_key r o.deposits e, g, ground arith, ground arith)
  ]
]

-- A write that keeps the key, one that opens an empty slot and one that clears a slot keep the
-- obligation valid.
pub put_same-IsValid :
    (o : Obligation) (i : ℕ) (d d' : ObligationCollateral)
    → get_elem? o.deposits i ≡ some d
    → deposit_key d' ≡ deposit_key d
    → IsValid o
    → IsValid (put o i d')
put_same-IsValid o i d d' g k v = record {
  unique_deposits = Unique-set_same deposit_key o.deposits i d d' g k v.unique_deposits;
  unique_borrows = v.unique_borrows;
  deposits_counted = ground (arith, v, count-set deposit_key o.deposits i d d' g);
  borrows_counted = v.borrows_counted;
  deposits_length = length-set o.deposits i d' ∙ v.deposits_length;
  borrows_length = v.borrows_length;
}

open-IsValid :
    (o : Obligation) (i : ℕ) (d d' : ObligationCollateral)
    → get_elem? o.deposits i ≡ some d
    → deposit_key d ≡ 0
    → deposit_key d' ≢ 0
    → find deposit_key (deposit_key d') o.deposits ≡ none
    → IsValid o
    → IsValid (record (put o i d') { deposits_count = saturating_add 8 o.deposits_count 1 })
open-IsValid o i d d' g k k' f v = record {
  unique_deposits = Unique-set_new deposit_key o.deposits i d' (inr f) v.unique_deposits;
  unique_borrows = v.unique_borrows;
  deposits_counted =
      ground (
        arith,
        v,
        count-set deposit_key o.deposits i d d' g,
        count-le-length deposit_key o.deposits,
      );
  borrows_counted = v.borrows_counted;
  deposits_length = length-set o.deposits i d' ∙ v.deposits_length;
  borrows_length = v.borrows_length;
}

clear-IsValid :
    (o : Obligation) (i : ℕ) (d : ObligationCollateral)
    → get_elem? o.deposits i ≡ some d
    → deposit_key d ≢ 0
    → IsValid o
    → IsValid (record (put o i collateral_default) { deposits_count = o.deposits_count - 1 })
clear-IsValid o i d g k v = record {
  unique_deposits =
      Unique-set_new deposit_key o.deposits i collateral_default (inl refl) v.unique_deposits;
  unique_borrows = v.unique_borrows;
  deposits_counted = ground (arith, v, count-set deposit_key o.deposits i d collateral_default g);
  borrows_counted = v.borrows_counted;
  deposits_length = length-set o.deposits i collateral_default ∙ v.deposits_length;
  borrows_length = v.borrows_length;
}

-- A successful deposit of cTokens of a reserve, whose key is not zero, keeps a valid obligation
-- valid, adds the amount to
-- what is locked for that reserve and for no other, and leaves the borrows alone.
pub deposit-Updated :
    (r : Pubkey) (a : ℕ) (o o' : Obligation)
    → r ≢ 0
    → IsValid o
    → deposit r a o ≡ ok o'
    → IsValid o'
      × Updated (deposited o) (deposited o') r (deposited o r + a)
      × (o'.borrows ≡ o.borrows)
deposit-Updated r a o o' ne v h = elim (deposit_cases r a o o' ne h) [
  | inl (i, d, p, g, e) ↦
      let d' = record d { deposited_amount = d.deposited_amount + a } in
      let (x, g', f, k) = get-position deposit_key r o.deposits i p in
      rw e (
        put_same-IsValid o i d d' g refl v,
        (
          ground (arith, find-set_hit deposit_key r o.deposits i d' p),
          λ j nz nj. ground (arith, find-set_ne deposit_key j o.deposits i d d' g),
        ),
        refl,
      )
  | inr (i, d, f, g, k, e) ↦
      let d' = record (collateral_init r) { deposited_amount = 0 + a } in
      rw e (
        open-IsValid o i d d' g k ne f v,
        (
          ground (arith, find-set_fresh deposit_key r o.deposits i d d' f g),
          λ j nz nj. ground (arith, find-set_ne deposit_key j o.deposits i d d' g),
        ),
        refl,
      )
]

-- A successful withdrawal takes from the slot of the reserve, and clears the slot at 0.
pub withdraw_cases :
    (r : Pubkey) (a : ℕ) (o o' : Obligation)
    → withdraw r a o ≡ ok o'
    → (i : ℕ) × (d : ObligationCollateral) × (position (λ x. deposit_key x == r) o.deposits
        ≡ some i)
      × (get_elem? o.deposits i ≡ some d)
      × (a ≤ d.deposited_amount)
      × (0 < a)
      × (o' ≡ (
          if d.deposited_amount - a == 0
          then record (put o i collateral_default) { deposits_count = o.deposits_count - 1 }
          else put o i (record d { deposited_amount = d.deposited_amount - a })))
unfolding withdraw find_deposit
withdraw_cases r a o o' h = elim (Option-cases (position (λ x. deposit_key x == r) o.deposits)) [
  | inl e ↦ absurd (ground arith)
  | inr (i, e) ↦
      let (d, g, f, k) = get-position deposit_key r o.deposits i e in
      (i, d, e, g, ground arith, ground arith, ground arith)
]

-- A successful withdrawal of cTokens of a reserve, whose key is not zero, keeps a valid obligation
-- valid, takes the amount,
-- which was locked for that reserve, from there and from no other, and leaves the borrows alone.
pub withdraw-Updated :
    (r : Pubkey) (a : ℕ) (o o' : Obligation)
    → r ≢ 0
    → IsValid o
    → withdraw r a o ≡ ok o'
    → IsValid o'
      × (a ≤ deposited o r)
      × Updated (deposited o) (deposited o') r (deposited o r - a)
      × (o'.borrows ≡ o.borrows)
withdraw-Updated r a o o' ne v h =
    let (i, d, p, g, le, pos, e) = withdraw_cases r a o o' h in
    let (x, g', f, k) = get-position deposit_key r o.deposits i p in
    let same : d ≡ x = ground arith in
    elim (Bool-cases (d.deposited_amount - a == 0)) [
      | inl gone ↦
          let u = v.unique_deposits in
          rw (e, gone)
            (
              clear-IsValid o i d g (ground arith) v,
              ground arith,
              (
                ground (
                  arith,
                  find-set_clear deposit_key r o.deposits i collateral_default u ne p refl,
                ),
                λ j nz nj.
                    ground (arith, find-set_ne deposit_key j o.deposits i d collateral_default g),
              ),
              refl,
            )
      | inr rest ↦
          let d' = record d { deposited_amount = d.deposited_amount - a } in
          rw (e, rest)
            (
              put_same-IsValid o i d d' g refl v,
              ground arith,
              (
                ground (arith, find-set_hit deposit_key r o.deposits i d' p),
                λ j nz nj. ground (arith, find-set_ne deposit_key j o.deposits i d d' g),
              ),
              refl,
            )
    ]

-- What is locked can be unlocked: a positive amount up to the locked one is never refused.
pub withdraw_total :
    (r : Pubkey) (a : ℕ) (o : Obligation)
    → 0 < a
    → a ≤ deposited o r
    → (o' : Obligation) × (withdraw r a o ≡ ok o')
unfolding withdraw find_deposit
withdraw_total r a o pos le = elim (Option-cases (position (λ x. deposit_key x == r) o.deposits)) [
  | inl e ↦ absurd (ground (arith, find-position-none deposit_key r o.deposits e))
  | inr (i, e) ↦
      let (d, g, f, k) = get-position deposit_key r o.deposits i e in
      (
        (if d.deposited_amount - a == 0
            then record (put o i collateral_default) { deposits_count = o.deposits_count - 1 }
            else put o i (record d { deposited_amount = d.deposited_amount - a })),
        ground arith,
      )
]

-- What was just locked in a valid obligation for a reserve, whose key is not zero, can be
-- unlocked, and then every locked amount is as it was.
pub withdraw-deposit :
    (r : Pubkey) (a : ℕ) (o o' : Obligation)
    → r ≢ 0
    → IsValid o
    → deposit r a o ≡ ok o'
    → (o'' : Obligation) × (withdraw r a o' ≡ ok o'')
      × ((j : Pubkey) → j ≢ 0 → deposited o'' j ≡ deposited o j)
withdraw-deposit r a o o' ne v h =
    let (v', up, _) = deposit-Updated r a o o' ne v h in
    let (o'', h') = withdraw_total r a o' (deposit_pos r a o o' h) (omega (arith, up.0)) in
    let (v'', le, down, _) = withdraw-Updated r a o' o'' ne v' h' in
    (
      o'',
      h',
      λ j nz. elim (Bool-cases (j == r)) [
        | inl e ↦ let same : j ≡ r = ground arith in rw same (omega (arith, up.0, down.0))
        | inr e ↦ down.1 j nz (ground arith) ∙ up.1 j nz (ground arith)
      ],
    )
