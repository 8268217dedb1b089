-- ===== src/Instructions/Liquidate/Effects.antt =====
-- What a liquidation does to the obligation.
use veil_vault.Base.{
  ℕ, ◌+◌, ◌-◌, ◌*◌, ◌^◌, ◌≤◌, ◌<◌, ◌≡◌, ◌≢◌, refl, ok, arith, some, sym, ◌∙◌, position, ◌==◌,
  get_elem?, >>=-elim, or_panic,
}
use veil_vault.Constants.{Pubkey, bps_scaler, rate_scale}
use veil_vault.Obligation
use veil_vault.Obligation.{
  Obligation, ObligationCollateral, ObligationLiquidity, find_borrow, find_deposit,
}
use veil_vault.Obligation.Keys.{get-position}
use veil_vault.Obligation.Valid.{IsValid, Updated, deposit_key, borrow_key, deposited, owed}
use veil_vault.Obligation.Accrual.{accrue_interest-IsValid, accrue_interest-found}
use veil_vault.Obligation.Borrows.{repay-Updated, forgiven}
use veil_vault.Obligation.Deposits.{withdraw-Updated}
use native.Mathlib.Nat.{mul-le-mul_right}
use veil_vault.Instructions.Liquidate.Amounts.{repay_capped-le, seize_capped-le, ctokens_for_le}
use veil_vault.Instructions.Liquidate.{
  WithdrawSide, repay_capped, ctokens_for, seize_capped, liquidate_position,
}

-- The steps of a successful liquidation, in their order.
record Steps (rk wk : Pubkey) (amount price index : ℕ) (s : WithdrawSide) (o o' : Obligation)
    (p n : ℕ) : Type 0 where
  slot : ℕ
  accrued : Obligation
  repaid : Obligation
  ctokens : ℕ
  found : find_borrow rk o ≡ ok slot
  accrual : Obligation.accrue_interest slot index o ≡ ok accrued
  valid : IsValid o → IsValid accrued × (accrued.deposits ≡ o.deposits)
  caps : repay_capped amount (owed accrued rk) ≡ ok p
  converts : ctokens_for p price s ≡ ok ctokens
  seizes : seize_capped ctokens (deposited accrued wk) ≡ ok n
  repays : Obligation.repay rk p accrued ≡ ok repaid
  withdraws : Obligation.withdraw wk n repaid ≡ ok o'

locked_amount :
    (wk i : ℕ) (o : Obligation) (d : ObligationCollateral)
    → find_deposit wk o ≡ ok i
    → or_panic (get_elem? o.deposits i) ≡ ok d
    → d.deposited_amount ≡ deposited o wk
unfolding find_deposit
locked_amount wk i o d h k =
    let p : position (λ x. deposit_key x == wk) o.deposits ≡ some i = ground arith in
    let (d', g, f, e) = get-position deposit_key wk o.deposits i p in ground arith

owed_amount :
    (rk i index : ℕ) (o o' : Obligation) (b : ObligationLiquidity)
    → find_borrow rk o ≡ ok i
    → Obligation.accrue_interest i index o ≡ ok o'
    → or_panic (get_elem? o'.borrows i) ≡ ok b
    → b.borrowed_amount_sf ≡ owed o' rk
unfolding find_borrow
owed_amount rk i index o o' b h a k =
    let p : position (λ x. borrow_key x == rk) o.borrows ≡ some i = ground arith in
    let (b', g, f) = accrue_interest-found rk i index o o' p a in ground arith

liquidate_position-Steps :
    (rk wk : Pubkey) (amount price index : ℕ) (s : WithdrawSide) (o o' : Obligation) (p n : ℕ)
    → liquidate_position rk wk amount price index s o ≡ ok (o', p, n)
    → Steps rk wk amount price index s o o' p n
unfolding liquidate_position
liquidate_position-Steps rk wk amount price index s o o' p n h =
    >>=-elim (find_borrow rk o) _ h λ i h1 k1.
      >>=-elim (Obligation.accrue_interest i index o) _ k1 λ accrued h2 k2.
        >>=-elim (or_panic (get_elem? accrued.borrows i)) _ k2 λ b h3 k3.
          >>=-elim (repay_capped amount b.borrowed_amount_sf) _ k3 λ q h4 k4.
            >>=-elim (ctokens_for q price s) _ k4 λ c h5 k5.
              >>=-elim (find_deposit wk accrued) _ k5 λ j h6 k6.
                >>=-elim (or_panic (get_elem? accrued.deposits j)) _ k6 λ d h7 k7.
                  >>=-elim (seize_capped c d.deposited_amount) _ k7 λ m h8 k8.
                    >>=-elim (Obligation.repay rk q accrued) _ k8 λ repaid h9 k9.
                      >>=-elim (Obligation.withdraw wk m repaid) _ k9 λ seized h10 k10.
                        let eo : seized ≡ o' = cc in
                        let ep : q ≡ p = cc in
                        let en : m ≡ n = cc in
                        record {
                          slot = i;
                          accrued = accrued;
                          repaid = repaid;
                          ctokens = c;
                          found = h1;
                          accrual = h2;
                          valid = λ v. accrue_interest-IsValid i index o accrued v h2;
                          caps = rw (sym ep, sym (owed_amount rk i index o accrued b h1 h2 h3)) h4;
                          converts = rw (sym ep) h5;
                          seizes = rw (sym en, sym (locked_amount wk j accrued d h6 h7)) h8;
                          repays = rw (sym ep) h9;
                          withdraws = rw (sym en, sym eo) h10;
                        }

-- What holds after a liquidation that repaid `p` and seized `n` cTokens, where `accrued` is the
-- obligation with the interest of the repaid debt's slot accrued to `index`.
pub record Liquidated (rk wk : Pubkey) (amount price index : ℕ) (s : WithdrawSide)
    (o o' : Obligation) (p n : ℕ) : Type 0 where
  pub valid : IsValid o'
  pub repay_pos : 0 < p
  pub repay_le : p ≤ amount
  pub seize_pos : 0 < n
  pub seize_le : n ≤ deposited o wk
  pub seized : Updated (deposited o) (deposited o') wk (deposited o wk - n)
  pub slot : ℕ
  pub accrued : Obligation
  pub found : find_borrow rk o ≡ ok slot
  pub accrual : Obligation.accrue_interest slot index o ≡ ok accrued
  pub close_factor : p * rate_scale * 2 ≤ owed accrued rk
  pub repaid : Updated (owed accrued) (owed o') rk (forgiven (owed accrued rk - p * rate_scale))
  pub fair :
      n * s.total_liquidity * s.price_sf * bps_scaler
      ≤ p * price * (bps_scaler + s.bonus_bps) * s.ctoken_supply

-- A liquidation for two reserves whose keys are not zero keeps a valid obligation valid.
pub liquidate_position-IsValid :
    (rk wk : Pubkey) (amount price index : ℕ) (s : WithdrawSide) (o o' : Obligation) (p n : ℕ)
    → rk ≢ 0
    → wk ≢ 0
    → IsValid o
    → liquidate_position rk wk amount price index s o ≡ ok (o', p, n)
    → IsValid o'
liquidate_position-IsValid rk wk amount price index s o o' p n nr nw v h =
    let t = liquidate_position-Steps rk wk amount price index s o o' p n h in
    let repaid = repay-Updated rk p t.accrued t.repaid nr ((t.valid v).0) t.repays in
    (withdraw-Updated wk n t.repaid o' nw (repaid.0) t.withdraws).0

same_deposited :
    (o o' : Obligation) → o'.deposits ≡ o.deposits → (j : Pubkey) → deposited o' j ≡ deposited o j
same_deposited o o' e j = rw e refl

same_owed : (o o' : Obligation) → o'.borrows ≡ o.borrows → (j : Pubkey) → owed o' j ≡ owed o j
same_owed o o' e j = rw e refl

-- cTokens of one reserve are taken, as many as are locked at most.
pub record Taken (k : Pubkey) (n : ℕ) (o o' : Obligation) : Type 0 where
  pub there : n ≤ deposited o k
  pub left : Updated (deposited o) (deposited o') k (deposited o k - n)

pub liquidate_position-Taken :
    (rk wk : Pubkey) (amount price index : ℕ) (s : WithdrawSide) (o o' : Obligation) (p n : ℕ)
    → rk ≢ 0
    → wk ≢ 0
    → IsValid o
    → liquidate_position rk wk amount price index s o ≡ ok (o', p, n)
    → Taken wk n o o'
liquidate_position-Taken rk wk amount price index s o o' p n nr nw v h =
    let t = liquidate_position-Steps rk wk amount price index s o o' p n h in
    let (v1, d1) = t.valid v in
    let (v2, le2, owed2, d2) = repay-Updated rk p t.accrued t.repaid nr v1 t.repays in
    let (v3, le3, dep3, b3) = withdraw-Updated wk n t.repaid o' nw v2 t.withdraws in
    let same = same_deposited o t.repaid (d2 ∙ d1) in
    record {
      there = rw (sym (same wk)) le3;
      left = (rw (sym (same wk)) (dep3.0), λ j nz nj. dep3.1 j nz nj ∙ same j);
    }

fewer_ctokens :
    (n c total price bound : ℕ)
    → n ≤ c
    → c * total * price * 10_000 ≤ bound
    → n * total * price * 10_000 ≤ bound
fewer_ctokens n c total price bound le h =
    let m : n * (total * (price * 10_000)) ≤ c * (total * (price * 10_000)) =
      mul-le-mul_right (total * (price * 10_000)) le in
    omega arith

-- A liquidation that succeeds, of a valid obligation, for two reserves whose keys are not zero,
-- whose locked cTokens of the reserve fit a `u64`, with a pool of collateral that is not empty:
-- the obligation stays valid; the repaid amount is positive, at most the requested one and at
-- most half of what the obligation owes that reserve with the interest of that debt's slot accrued
-- to the given index; after the liquidation it owes that reserve this accrued debt less the repaid
-- amount, a rest below the dust threshold forgiven, and every other reserve what it owed after the
-- accrual; the seized cTokens are positive, were locked, are taken from that reserve and from no
-- other, and are worth at most the repayment and its bonus.
pub liquidate_position-Liquidated :
    (rk wk : Pubkey) (amount price index : ℕ) (s : WithdrawSide) (o o' : Obligation) (p n : ℕ)
    → rk ≢ 0
    → wk ≢ 0
    → IsValid o
    → deposited o wk < 2 ^ 64
    → s.ctoken_supply ≢ 0
    → s.total_liquidity ≢ 0
    → liquidate_position rk wk amount price index s o ≡ ok (o', p, n)
    → Liquidated rk wk amount price index s o o' p n
liquidate_position-Liquidated rk wk amount price index s o o' p n nr nw v w ns nt h =
    let t = liquidate_position-Steps rk wk amount price index s o o' p n h in
    let (v1, d1) = t.valid v in
    let (v2, le2, owed2, d2) = repay-Updated rk p t.accrued t.repaid nr v1 t.repays in
    let (v3, le3, dep3, b3) = withdraw-Updated wk n t.repaid o' nw v2 t.withdraws in
    let taken = liquidate_position-Taken rk wk amount price index s o o' p n nr nw v h in
    let same = same_owed t.repaid o' b3 in
    let cap = repay_capped-le amount (owed t.accrued rk) p t.caps in
    let locked : deposited t.accrued wk < 2 ^ 64 = rw (same_deposited o t.accrued d1 wk) w in
    let seize = seize_capped-le t.ctokens (deposited t.accrued wk) n locked t.seizes in
    record {
      valid = v3;
      repay_pos = cap.0;
      repay_le = cap.1;
      seize_pos = seize.0;
      seize_le = taken.there;
      seized = taken.left;
      slot = t.slot;
      accrued = t.accrued;
      found = t.found;
      accrual = t.accrual;
      close_factor = cap.2;
      repaid = (same rk ∙ owed2.0, λ j nz nj. same j ∙ owed2.1 j nz nj);
      fair =
          fewer_ctokens n t.ctokens s.total_liquidity s.price_sf
            (p * price * (bps_scaler + s.bonus_bps) * s.ctoken_supply) (omega (arith, seize.1))
            (ctokens_for_le p price t.ctokens s ns nt t.converts);
    }
