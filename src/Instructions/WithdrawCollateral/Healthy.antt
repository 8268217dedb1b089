-- ===== src/Instructions/WithdrawCollateral/Healthy.antt =====
-- What is left after collateral is released.
use Prim.Native.Nat.{max}
use mathlib.Core.Path.{subst}
use veil_vault.Base.{
  ℕ, Option, ◌-◌, ◌*◌, ◌/◌, ◌≤◌, ◌≡◌, ◌≢◌, refl, ◌∙◌, inl, inr, not, true, false, Bool-cases, some,
  LendingError, ok, require, arith, ◌==◌, position, >>=-elim, zero, suc, sym, if◌then◌else◌,
}
use veil_vault.Constants.{Pubkey}
use veil_vault.LastUpdate.{is_slot_stale}
use veil_vault.Obligation
use veil_vault.Obligation.{Obligation, collateral_default, find_deposit, health_factor, is_healthy}
use veil_vault.Obligation.Keys.{get-position, find-set_hit, find-set_ne, find-set_clear}
use veil_vault.Obligation.Valid.{IsValid, Updated, deposit_key, deposited, valued}
use veil_vault.Obligation.Deposits.{put, put_same-IsValid, withdraw-Updated, withdraw_cases}
use veil_vault.Instructions.WithdrawCollateral.{require_healthy, discount_slot, withdraw_obligation}

-- The discount of a slot's price leaves every locked amount alone.
discount_slot-same :
    (r i a : ℕ) (o o' : Obligation)
    → IsValid o
    → find_deposit r o ≡ ok i
    → discount_slot i a o ≡ ok o'
    → IsValid o' × ((j : Pubkey) → deposited o' j ≡ deposited o j) × (o'.borrows ≡ o.borrows)
unfolding discount_slot find_deposit
discount_slot-same r i a o o' v p h =
    let p' : position (λ x. deposit_key x == r) o.deposits ≡ some i = ground arith in
    let (d, g, f, k) = get-position deposit_key r o.deposits i p' in
    let d' = record d {
      market_value_sf = d.market_value_sf * (d.deposited_amount - a) / max d.deposited_amount 1;
    } in
    let e : o' ≡ put o i d' = ground arith in
    rw e (
      put_same-IsValid o i d d' g refl v,
      λ j. elim (Bool-cases (j == r)) [
        | inl same ↦
            let s : j ≡ r = ground arith in
            rw s (ground (arith, find-set_hit deposit_key r o.deposits i d' p'))
        | inr other ↦
            let n : deposit_key d ≢ j = ground arith in
            ground (arith, find-set_ne deposit_key j o.deposits i d d' g n n)
      ],
      refl,
    )

-- It scales the value of the slot with the amount that stays, and leaves the other values alone.
discount_slot-Updated :
    (r i a : ℕ) (o o' : Obligation)
    → find_deposit r o ≡ ok i
    → discount_slot i a o ≡ ok o'
    → Updated (valued o) (valued o') r (valued o r * (deposited o r - a) / max (deposited o r) 1)
unfolding discount_slot find_deposit
discount_slot-Updated r i a o o' p h =
    let p' : position (λ x. deposit_key x == r) o.deposits ≡ some i = ground arith in
    let (d, g, f, k) = get-position deposit_key r o.deposits i p' in
    let d' = record d {
      market_value_sf = d.market_value_sf * (d.deposited_amount - a) / max d.deposited_amount 1;
    } in
    let e : o' ≡ put o i d' = ground arith in
    rw e (
      ground (arith, find-set_hit deposit_key r o.deposits i d' p'),
      λ j nz nj. ground (arith, find-set_ne deposit_key j o.deposits i d d' g),
    )

-- A withdrawal leaves the values alone, but for the slot that it clears.
withdraw-valued :
    (r a : ℕ) (o o' : Obligation)
    → r ≢ 0
    → IsValid o
    → Obligation.withdraw r a o ≡ ok o'
    → Updated (valued o) (valued o') r (if deposited o r - a == 0 then 0 else valued o r)
withdraw-valued r a o o' ne v h =
    let (i, d, p, g, le, pos, e) = withdraw_cases r a o o' h in
    let (x, g', f, k) = get-position deposit_key r o.deposits i p in
    let same : d ≡ x = ground arith in
    elim (Bool-cases (d.deposited_amount - a == 0)) [
      | inl gone ↦
          let u = v.unique_deposits in
          rw (e, gone)
            (
              ground
                  (arith, find-set_clear deposit_key r o.deposits i collateral_default u ne p refl),
              λ j nz nj.
                  ground (arith, find-set_ne deposit_key j o.deposits i d collateral_default g),
            )
      | inr rest ↦
          let d' = record d { deposited_amount = d.deposited_amount - a } in
          rw (e, rest)
            (
              ground (arith, find-set_hit deposit_key r o.deposits i d' p),
              λ j nz nj. ground (arith, find-set_ne deposit_key j o.deposits i d d' g),
            )
    ]

scaled_to_zero : (x left m : ℕ) → m ≢ 0 → (if left == 0 then 0 else x * left / m) ≡ x * left / m
scaled_to_zero x zero m ne = grind arith
scaled_to_zero x (suc left) m ne = ground arith

discounted :
    (r i a : ℕ) (o c o' : Obligation)
    → r ≢ 0
    → IsValid c
    → ((j : Pubkey) → deposited c j ≡ deposited o j)
    → find_deposit r o ≡ ok i
    → discount_slot i a o ≡ ok c
    → Obligation.withdraw r a c ≡ ok o'
    → Updated (valued o) (valued o') r (valued o r * (deposited o r - a) / max (deposited o r) 1)
discounted r i a o c o' ne v locked p h k =
    let d = discount_slot-Updated r i a o c p h in
    let t = withdraw-valued r a c o' ne v k in
    let t0 : valued o' r ≡ (
        if deposited o r - a == 0
        then 0
        else valued o r * (deposited o r - a) / max (deposited o r) 1) =
      rw (sym (d.0), sym (locked r)) (t.0) in
    (
      t0 ∙ scaled_to_zero (valued o r) (deposited o r - a) (max (deposited o r) 1) (omega arith),
      λ j nz nj. t.1 j nz nj ∙ d.1 j nz nj,
    )

require_healthy-is_healthy :
    (o : Obligation) (hf : Option ℕ)
    → health_factor o ≡ ok hf
    → require_healthy hf ≡ ok tt
    → is_healthy o ≡ ok true
unfolding is_healthy require_healthy
require_healthy-is_healthy o hf h k = ground arith

-- Collateral of a reserve, whose key is not zero, is released from a valid obligation only if it
-- was refreshed in this slot and if it counts as healthy afterwards; it stays valid, the amount was
-- locked, it is taken from that reserve and from no other, and the debts are as they were; the
-- market value of what is locked for the reserve is then the stored one times the amount that stays
-- over the amount that was locked, rounded down, and the values for the other reserves are as they
-- were.
pub withdraw_obligation-is_healthy :
    (rk : Pubkey) (amount slot : ℕ) (o o' : Obligation)
    → rk ≢ 0
    → IsValid o
    → withdraw_obligation rk amount slot o ≡ ok o'
    → (is_slot_stale o.last_update slot ≡ false)
      × IsValid o'
      × (is_healthy o' ≡ ok true)
      × (amount ≤ deposited o rk)
      × Updated (deposited o) (deposited o') rk (deposited o rk - amount)
      × (o'.borrows ≡ o.borrows)
      × Updated
          (valued o)
          (valued o')
          rk
          (valued o rk * (deposited o rk - amount) / max (deposited o rk) 1)
unfolding withdraw_obligation
withdraw_obligation-is_healthy rk amount slot o o' ne v h =
    >>=-elim (require (not (is_slot_stale o.last_update slot)) LendingError.obligation_stale) _ h
      λ u1 h1 k1. >>=-elim (find_deposit rk o) _ k1 λ i h2 k2.
        >>=-elim (discount_slot i amount o) _ k2 λ c h3 k3.
          >>=-elim (Obligation.withdraw rk amount c) _ k3 λ b h4 k4.
            >>=-elim (health_factor b) _ k4 λ hf h5 k5.
              >>=-elim (require_healthy hf) _ k5 λ u6 h6 k6.
                let same : b ≡ o' = cc in
                let (v1, locked, b1) = discount_slot-same rk i amount o c v h2 h3 in
                let (v2, le, less, b2) = withdraw-Updated rk amount c b ne v1 h4 in
                (
                  ground arith,
                  subst IsValid same v2,
                  subst (λ x. is_healthy x ≡ ok true) same (require_healthy-is_healthy b hf h5 h6),
                  omega (arith, locked rk),
                  subst (λ x. Updated (deposited o) (deposited x) rk (deposited o rk - amount)) same
                      (omega (arith, locked rk, less.0), λ j nz nj. less.1 j nz nj ∙ locked j),
                  subst (λ x. x.borrows ≡ o.borrows) same (b2 ∙ b1),
                  subst
                      (λ x.
                        Updated (valued o) (valued x) rk
                          (valued o rk * (deposited o rk - amount) / max (deposited o rk) 1))
                      same (discounted rk i amount o c b ne v1 locked h2 h3 h4),
                )
