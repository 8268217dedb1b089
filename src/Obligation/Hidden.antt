-- ===== src/Obligation/Hidden.antt =====
-- The health factor reads the first slots, as many as there are active ones, but a cleared slot is
-- not filled up from behind: a debt in a later slot drops out of sight.
use veil_vault.Base.{
  ℕ, ◌+◌, ◌*◌, ◌<◌, ◌≡◌, ◌≢◌, refl, ap, ◌∙◌, inl, true, some, List, [], ◌∷◌, ok, arith, take, ◌==◌,
  position,
}
use veil_vault.Constants.{rate_scale}
use veil_vault.Obligation.{
  Obligation, ObligationLiquidity, liquidity_default, borrow_value, is_healthy, repay, find_borrow,
}
use veil_vault.Obligation.Keys.{count}
use veil_vault.Obligation.Slots.{active_values, fold_values}
use veil_vault.Obligation.Valid.{IsValid, borrow_key, owed}
use veil_vault.Obligation.Borrows.{repay-Updated}
use veil_vault.Obligation.Health.{is_healthy_iff}

fold_values-empty :
    (acc : ℕ) (xs : List ObligationLiquidity)
    → count borrow_key xs ≡ 0
    → fold_values borrow_value acc xs ≡ acc
unfolding fold_values
fold_values-empty acc [] h = refl
fold_values-empty acc (x ∷ xs) h = ground (arith, fold_values-empty acc xs)

-- A valid obligation whose debts all stand behind its first `borrows_count` slots counts as
-- healthy, whatever the debts.
hidden_debt-is_healthy :
    (o : Obligation)
    → IsValid o
    → count borrow_key (take o.borrows_count o.borrows) ≡ 0
    → is_healthy o ≡ ok true
unfolding active_values
hidden_debt-is_healthy o v h =
    (is_healthy_iff o v).0.1 (inl (fold_values-empty 0 (take o.borrows_count o.borrows) h))

position_first :
    (b : ObligationLiquidity) (xs : List ObligationLiquidity)
    → position (λ x. borrow_key x == borrow_key b) (b ∷ xs) ≡ some 0
unfolding position
position_first b xs = ground arith

cleared_first :
    (a : ℕ) (o o' : Obligation) (b c : ObligationLiquidity) (rest : List ObligationLiquidity)
    → o.borrows ≡ b ∷ c ∷ rest
    → o.borrows_count ≡ 2
    → b.borrowed_amount_sf < a * rate_scale + rate_scale
    → repay (borrow_key b) a o ≡ ok o'
    → (o'.borrows ≡ liquidity_default ∷ c ∷ rest) × (o'.borrows_count ≡ 1)
unfolding repay find_borrow
cleared_first a o o' b c rest e n full h =
    let first = ap (position (λ x. borrow_key x == borrow_key b)) e ∙ position_first b (c ∷ rest) in
    ground (arith, first)

-- In a valid obligation with two debts, in its first two slots: once the first is repaid in full,
-- up to a rest below one token unit, the obligation counts as healthy, while the second debt is
-- owed as before, however large it is.
pub repay_first-is_healthy :
    (a : ℕ) (o o' : Obligation) (b c : ObligationLiquidity) (rest : List ObligationLiquidity)
    → IsValid o
    → o.borrows ≡ b ∷ c ∷ rest
    → o.borrows_count ≡ 2
    → borrow_key b ≢ 0
    → borrow_key c ≢ 0
    → b.borrowed_amount_sf < a * rate_scale + rate_scale
    → repay (borrow_key b) a o ≡ ok o'
    → (is_healthy o' ≡ ok true) × (owed o' (borrow_key c) ≡ c.borrowed_amount_sf)
repay_first-is_healthy a o o' b c rest v e n nb nc full h =
    let (v', le, (at, others), _) = repay-Updated (borrow_key b) a o o' nb v h in
    let (bs, k) = cleared_first a o o' b c rest e n full h in
    (hidden_debt-is_healthy o' v' (ground arith), ground arith)
