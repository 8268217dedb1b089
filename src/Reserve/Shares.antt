-- ===== src/Reserve/Shares.antt =====
-- Deposits and redemptions at the level of the pool: what a cToken is worth.
use veil_vault.Base.{
  ℕ, zero, suc, ◌+◌, ◌-◌, ◌*◌, ◌≤◌, ◌≡◌, ◌≢◌, ◌⊎◌, inl, inr, ok, arith, le_of_mul_le, ◌∙◌,
  Bool-cases, ◌==◌, ◌||◌,
}
use veil_vault.Reserve.Liquidity
use veil_vault.Reserve.Liquidity.{ReserveLiquidity, total_supply}
use veil_vault.Reserve.Collateral
use veil_vault.Reserve.Collateral.{
  ReserveCollateral, CollateralExchangeRate, exchange_rate, collateral_to_liquidity,
  liquidity_to_collateral,
}
use veil_vault.Reserve.Collateral.Rounding.{to_collateral-le, to_liquidity-le}
use veil_vault.Reserve.{Reserve, deposit_liquidity, redeem_collateral}

-- `total_supply` where it does not fail.
abbrev supply : ReserveLiquidity → ℕ
supply l = l.available_amount + l.borrowed_amount_sf - l.accumulated_protocol_fees

abbrev ctokens : Reserve → ℕ
ctokens r = r.collateral.mint_total_supply

-- What a successful deposit does: the amount becomes available and the cTokens exist.
record Deposited (a c : ℕ) (r r' : Reserve) : Type 0 where
  available : r'.liquidity.available_amount ≡ r.liquidity.available_amount + a
  borrowed : r'.liquidity.borrowed_amount_sf ≡ r.liquidity.borrowed_amount_sf
  fees : r'.liquidity.accumulated_protocol_fees ≡ r.liquidity.accumulated_protocol_fees
  covered :
      r.liquidity.accumulated_protocol_fees
      ≤ r.liquidity.available_amount + r.liquidity.borrowed_amount_sf
  minted : ctokens r' ≡ ctokens r + c
  known : total_supply r.liquidity ≡ ok (supply r.liquidity)
  rate : liquidity_to_collateral (exchange_rate r.collateral (supply r.liquidity)) a ≡ ok c

deposit-Deposited :
    (a : ℕ) (r r' : Reserve) (c : ℕ) → deposit_liquidity a r ≡ ok (r', c) → Deposited a c r r'
unfolding deposit_liquidity total_supply Liquidity.deposit Collateral.mint liquidity_to_collateral
    exchange_rate
deposit-Deposited a r r' c h = ground arith

-- What a successful redemption does, where the supply is known: the cTokens are gone and the
-- amount is paid out of what is available.
record Redeemed (c a : ℕ) (r r' : Reserve) : Type 0 where
  available : r.liquidity.available_amount ≡ r'.liquidity.available_amount + a
  borrowed : r'.liquidity.borrowed_amount_sf ≡ r.liquidity.borrowed_amount_sf
  fees : r'.liquidity.accumulated_protocol_fees ≡ r.liquidity.accumulated_protocol_fees
  burnt : ctokens r ≡ ctokens r' + c
  rate : collateral_to_liquidity (exchange_rate r.collateral (supply r.liquidity)) c ≡ ok a

redeem-Redeemed :
    (c : ℕ) (r r' : Reserve) (a t : ℕ)
    → total_supply r.liquidity ≡ ok t
    → redeem_collateral c r ≡ ok (r', a)
    → Redeemed c a r r' × (t ≡ supply r.liquidity)
unfolding redeem_collateral total_supply Liquidity.withdraw Collateral.burn collateral_to_liquidity
    exchange_rate
redeem-Redeemed c r r' a t ht h = ground arith

-- The cTokens of a deposit are worth at most the deposit, at the rate before it, which is one
-- for one where the pool has no cTokens or no tokens.
deposit_rate :
    (a : ℕ) (r r' : Reserve) (c : ℕ)
    → Deposited a c r r'
    → (ctokens r ≢ 0 → supply r.liquidity ≢ 0 → c * supply r.liquidity ≤ a * ctokens r)
      × ((ctokens r ≡ 0) ⊎ (supply r.liquidity ≡ 0) → c ≤ a)
unfolding exchange_rate
deposit_rate a r r' c d =
    let e = exchange_rate r.collateral (supply r.liquidity) in
    (
      λ p q. ground (arith, to_collateral-le e a c d.rate),
      λ p. ground (arith, to_collateral-le e a c d.rate),
    )

redeem_rate :
    (c : ℕ) (r r' : Reserve) (a : ℕ)
    → Redeemed c a r r'
    → (ctokens r ≢ 0 → supply r.liquidity ≢ 0 → a * ctokens r ≤ c * supply r.liquidity)
      × ((ctokens r ≡ 0) ⊎ (supply r.liquidity ≡ 0) → a ≤ c)
unfolding exchange_rate
redeem_rate c r r' a d =
    let e = exchange_rate r.collateral (supply r.liquidity) in
    (
      λ p q. ground (arith, to_liquidity-le e c a d.rate),
      λ p. ground (arith, to_liquidity-le e c a d.rate),
    )

-- A deposit into a pool with cTokens and tokens raises the supply by the amount and the cTokens
-- by what it returns, and does not lower what a cToken is worth: the ratio of the supply to the
-- cTokens is at least the old one. (The new supply is assumed to be in range.)
pub deposit-keeps-worth :
    (a : ℕ) (r r' : Reserve) (c t t' : ℕ)
    → deposit_liquidity a r ≡ ok (r', c)
    → ctokens r ≢ 0
    → total_supply r.liquidity ≡ ok t
    → total_supply r'.liquidity ≡ ok t'
    → t ≢ 0
    → (t' ≡ t + a) × (ctokens r' ≡ ctokens r + c) × (t * ctokens r' ≤ t' * ctokens r)
unfolding total_supply
deposit-keeps-worth a r r' c t t' h some_tokens k k' some_supply =
    let d = deposit-Deposited a r r' c h in
    let et : t ≡ supply r.liquidity = ground arith in
    let et' : t' ≡ t + a = ground (arith, d) in
    let le : c * t ≤ a * ctokens r =
      rw et ((deposit_rate a r r' c d).0 some_tokens (λ z. some_supply (et ∙ z))) in
    (et', d.minted, rw (et', d.minted) (omega arith))

le_of_share : (a c t s : ℕ) → s ≢ 0 → c ≤ s → a * s ≤ c * t → a ≤ t
le_of_share a c t s ne h k = grind arith

worth_kept : (a c t t' s s' : ℕ) → t ≡ t' + a → s ≡ s' + c → a * s ≤ c * t → t * s' ≤ t' * s
worth_kept a c t t' s s' p q h =
    let le : a * (s' + c) ≤ c * (t' + a) = rw (p, q) at h in rw (p, q) (omega arith)

paid_from_supply :
    (r r' : Reserve) (c a t : ℕ)
    → Redeemed c a r r'
    → total_supply r.liquidity ≡ ok t
    → a ≤ t
    → t ≡ supply r'.liquidity + a
unfolding total_supply
paid_from_supply r r' c a t d k h = ground (arith, d)

-- A redemption from a pool with cTokens and tokens lowers the supply by what it pays and the
-- cTokens by what it burns, and does not lower what the remaining cTokens are worth.
pub redeem-keeps-worth :
    (c : ℕ) (r r' : Reserve) (a t : ℕ)
    → redeem_collateral c r ≡ ok (r', a)
    → ctokens r ≢ 0
    → total_supply r.liquidity ≡ ok t
    → t ≢ 0
    → (t ≡ supply r'.liquidity + a)
      × (ctokens r ≡ ctokens r' + c)
      × (t * ctokens r' ≤ supply r'.liquidity * ctokens r)
redeem-keeps-worth c r r' a t h some_tokens k some_supply =
    let (d, et) = redeem-Redeemed c r r' a t k h in
    let le : a * ctokens r ≤ c * t =
      rw et ((redeem_rate c r r' a d).0 some_tokens (λ z. some_supply (et ∙ z))) in
    let cover : a ≤ t = le_of_share a c t (ctokens r) some_tokens (omega arith) le in
    let et' : t ≡ supply r'.liquidity + a = paid_from_supply r r' c a t d k cover in
    (et', d.burnt, worth_kept a c t (supply r'.liquidity) (ctokens r) (ctokens r') et' d.burnt le)

share_of : (s t a c : ℕ) → (s ≢ 0) ⊎ (t ≡ 0) → (s ≢ 0 → t ≢ 0 → c * t ≤ a * s) → c * t ≤ a * s
share_of s zero a c p h = omega arith
share_of s (suc t) a c (inl ne) h = h ne (omega arith)
share_of s (suc t) a c (inr e) h = absurd (omega arith)

share_back : (s t a c a' : ℕ) → s + c ≢ 0 → c * t ≤ a * s → a' * (s + c) ≤ c * (t + a) → a' ≤ a
share_back s t a c a' ne h k = le_of_mul_le a' a (s + c) ne (omega arith)

-- What a deposit returns, redeemed at once, pays back at most the deposit. The pool has cTokens
-- or no tokens: one with tokens and no cTokens gives its tokens to the next depositor. (The new
-- supply is assumed to be in range.)
pub redeem-deposit-le :
    (a : ℕ) (r r' r'' : Reserve) (c a' t' : ℕ)
    → (ctokens r ≢ 0) ⊎ (supply r.liquidity ≡ 0)
    → deposit_liquidity a r ≡ ok (r', c)
    → total_supply r'.liquidity ≡ ok t'
    → redeem_collateral c r' ≡ ok (r'', a')
    → a' ≤ a
redeem-deposit-le a r r' r'' c a' t' p h k h' =
    let d = deposit-Deposited a r r' c h in
    let (d', et') = redeem-Redeemed c r' r'' a' t' k h' in
    let t = supply r.liquidity in
    let grown : supply r'.liquidity ≡ t + a = ground (arith, d) in
    let (worth, one) = deposit_rate a r r' c d in
    let (worth', one') = redeem_rate c r' r'' a' d' in
    let s = ctokens r in
    elim (Bool-cases (s + c == 0 || t + a == 0)) [
      | inl e ↦ ground (arith, d, one, one')
      | inr e ↦
          let share : c * t ≤ a * s = share_of s t a c p worth in
          let back : a' * (s + c) ≤ c * (t + a) =
            rw (d.minted, grown) at (worth' (ground (arith, d)) (ground arith)) in
          share_back s t a c a' (ground arith) share back
    ]
