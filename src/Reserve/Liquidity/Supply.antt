-- ===== src/Reserve/Liquidity/Supply.antt =====
-- What the moves of tokens do to the pool's supply, and the range of the utilization.
use veil_vault.Base.{
  ℕ, ◌+◌, ◌-◌, ◌*◌, ◌/◌, ◌^◌, ◌≤◌, ◌<◌, ◌≡◌, inl, inr, ok, arith, ◌∙◌, Bool-cases, ◌==◌,
}
use veil_vault.Reserve.Liquidity.{ReserveLiquidity, borrow, repay, total_supply, utilization_rate}

total_supply-borrow :
    (a : ℕ) (l l' : ReserveLiquidity) → borrow a l ≡ ok l' → total_supply l' ≡ total_supply l
unfolding borrow total_supply
total_supply-borrow a l l' h = ground arith

total_supply-repay :
    (a : ℕ) (l l' : ReserveLiquidity) → repay a l ≡ ok l' → total_supply l' ≡ total_supply l
unfolding repay total_supply
total_supply-repay a l l' h = ground arith

-- Lending tokens out, and taking tokens back after that, moves them between the two parts of the
-- supply: the supply itself, or its overflow, is the same before and after each of the two.
pub total_supply-borrow-repay :
    (a b : ℕ) (l l' l'' : ReserveLiquidity)
    → borrow a l ≡ ok l'
    → repay b l' ≡ ok l''
    → (total_supply l' ≡ total_supply l) × (total_supply l'' ≡ total_supply l)
total_supply-borrow-repay a b l l' l'' h k =
    let first = total_supply-borrow a l l' h in (first, total_supply-repay b l' l'' k ∙ first)

-- Where the available amount is a `u64`, repaying what was just borrowed restores the pool.
pub repay-borrow :
    (a : ℕ) (l l' : ReserveLiquidity)
    → l.available_amount < 2 ^ 64
    → borrow a l ≡ ok l'
    → repay a l' ≡ ok l
unfolding borrow repay
repay-borrow a l l' w h = ground arith

percent_le : (b t : ℕ) → b ≤ t → b * 100 / t ≤ 100
percent_le b t h = grind arith

-- The utilization is a percentage, from 0 to 100, where the accumulated fees are covered by
-- available tokens and the amounts are in range.
pub utilization_rate-le :
    (l : ReserveLiquidity)
    → l.accumulated_protocol_fees ≤ l.available_amount
    → l.available_amount < 2 ^ 64
    → l.borrowed_amount_sf < 2 ^ 121
    → (u : ℕ) × (utilization_rate l ≡ ok u) × (u ≤ 100)
unfolding utilization_rate total_supply
utilization_rate-le l h w v =
    let b = l.borrowed_amount_sf in
    let t = l.available_amount + b - l.accumulated_protocol_fees in
    elim (Bool-cases (t == 0)) [
      | inl e ↦ (0, ground arith, omega arith)
      | inr e ↦ (b * 100 / t, ground arith, percent_le b t (omega arith))
    ]
