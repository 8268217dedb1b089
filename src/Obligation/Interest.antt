-- ===== src/Obligation/Interest.antt =====
-- Interest on one debt: the ratio of the reserve's index to the slot's snapshot.
use veil_vault.Base.{ℕ, ◌*◌, ◌/◌, ◌≤◌, ◌≡◌, ◌≢◌, ok, arith, le-mul-div, mul-div-mul-div, sym, ◌∙◌}
use native.Mathlib.Nat.{mul-div_cancel}
use veil_vault.Obligation.{ObligationLiquidity, accrue_slot}

-- For an active slot whose snapshot is not 0, accruing its debt to an index succeeds only if the
-- index is at or above the debt's snapshot; it then scales the debt by the ratio of the two,
-- rounded down, so that it does not shrink, and takes the index as the new snapshot. The reserve
-- and the price stay.
pub accrue_slot_lem :
    (index : ℕ) (b b' : ObligationLiquidity)
    → b.borrow_reserve ≢ 0
    → b.cumulative_borrow_rate_sf ≢ 0
    → accrue_slot index b ≡ ok b'
    → (b.cumulative_borrow_rate_sf ≤ index)
      × (b'.cumulative_borrow_rate_sf ≡ index)
      × (b'.borrowed_amount_sf ≡ b.borrowed_amount_sf * index / b.cumulative_borrow_rate_sf)
      × (b.borrowed_amount_sf ≤ b'.borrowed_amount_sf)
      × (b'.borrow_reserve ≡ b.borrow_reserve)
      × (b'.market_value_sf ≡ b.market_value_sf)
unfolding accrue_slot
accrue_slot_lem index b b' active pos h =
    let d = b.borrowed_amount_sf in
    let c = b.cumulative_borrow_rate_sf in
    ground (arith, mul-div_cancel d {n = c}, le-mul-div d c index)

-- For an active slot whose snapshot is not 0, two successful accruals, to an index and then to a
-- later one, leave at most the debt of one accrual to the
-- later index: refreshing often never costs a borrower more.
pub accrue_slot_twice :
    (index later : ℕ) (b b' b'' c : ObligationLiquidity)
    → b.borrow_reserve ≢ 0
    → b.cumulative_borrow_rate_sf ≢ 0
    → accrue_slot index b ≡ ok b'
    → accrue_slot later b' ≡ ok b''
    → accrue_slot later b ≡ ok c
    → b''.borrowed_amount_sf ≤ c.borrowed_amount_sf
accrue_slot_twice index later b b' b'' c active pos h k m =
    let x = accrue_slot_lem index b b' active pos h in
    let kept : b'.borrow_reserve ≢ 0 = λ z. active (sym x.4 ∙ z) in
    let pos' : b'.cumulative_borrow_rate_sf ≢ 0 = omega arith in
    let y = accrue_slot_lem later b' b'' kept pos' k in
    let z = accrue_slot_lem later b c active pos m in
    rw (y.2, z.2, x.1, x.2)
      (mul-div-mul-div b.borrowed_amount_sf b.cumulative_borrow_rate_sf index later pos
        (omega arith))
