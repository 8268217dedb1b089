-- ===== src/Program/Backing/Counts.antt =====
-- What the instructions do to a pool's record of its tokens and of its cTokens.
use veil_vault.Base.{
  ℕ, ◌+◌, ◌≡◌, not, ◌||◌, ltb, Option, LendingError, Result, require, arith, Ensures, step, returns,
  follows, ◌==◌, ◌>>=◌,
}
use veil_vault.Constants.{Pubkey, max_age_seconds}
use veil_vault.Prices.{PriceUpdate, get_pyth_price}
use veil_vault.Reserve
use veil_vault.Reserve.{Reserve}
use veil_vault.Reserve.Config.{is_active}
use veil_vault.Reserve.Liquidity
use veil_vault.Reserve.Collateral
use veil_vault.Runtime.{Clock}
use veil_vault.Instructions.Deposit.{deposit_reserve}
use veil_vault.Instructions.Withdraw.{withdraw_reserve}
use veil_vault.Instructions.Borrow.{borrow_reserve}
use veil_vault.Instructions.Repay.{repay_reserve}
use veil_vault.Instructions.RefreshReserve.{refresh}
use veil_vault.Instructions.Liquidate.{ready_reserve}
use veil_vault.Private.Borrow.{private_borrow_reserve, oracle_is_set}

abbrev pub available : Reserve → ℕ
available r = r.liquidity.available_amount

abbrev pub minted : Reserve → ℕ
minted r = r.collateral.mint_total_supply

-- The tokens and the cTokens recorded after and before differ by those that come in, on the left,
-- and those that go out.
pub record Books (r r' : Reserve) (tokens_in tokens_out issued burnt : ℕ) : Type 0 where
  pub tokens : available r' + tokens_out ≡ available r + tokens_in
  pub ctokens : minted r' + burnt ≡ minted r + issued

abbrev pub SameBooks : Reserve → Reserve → Type 0
SameBooks r r' = Books r r' 0 0 0 0

-- Books kept up to a first reserve, before what happens to it.
after :
    {r r1 r2 : Reserve} {i o s b : ℕ} → SameBooks r r1 → Books r1 r2 i o s b → Books r r2 i o s b
after same books =
    let tokens = same.tokens in
    let ctokens = same.ctokens in
    let tokens' = books.tokens in
    let ctokens' = books.ctokens in record { tokens = ground arith; ctokens = ground arith }

accrue_interest-SameBooks :
    (slot : ℕ) (r : Reserve) → Ensures (SameBooks r) (Reserve.accrue_interest slot r)
unfolding Reserve.accrue_interest Liquidity.accured_interest
accrue_interest-SameBooks slot r = record {
  holds = λ r' h. record { tokens = ground arith; ctokens = ground arith };
}

module _ (n : ℕ) (r : Reserve) where
  deposit_liquidity-Books : Ensures (λ x. Books r (x.0) n 0 (x.1) 0) (Reserve.deposit_liquidity n r)
  unfolding Reserve.deposit_liquidity Liquidity.deposit Collateral.mint
  deposit_liquidity-Books = record {
    holds = λ x h. record { tokens = ground arith; ctokens = ground arith };
  }

  redeem_collateral-Books : Ensures (λ x. Books r (x.0) 0 (x.1) 0 n) (Reserve.redeem_collateral n r)
  unfolding Reserve.redeem_collateral Liquidity.withdraw Collateral.burn
  redeem_collateral-Books = record {
    holds = λ x h. record { tokens = ground arith; ctokens = ground arith };
  }

  borrow-Books : Ensures (λ x. Books r x 0 n 0 0) (Reserve.borrow n r)
  unfolding Reserve.borrow Liquidity.borrow
  borrow-Books = record { holds = λ x h. record { tokens = ground arith; ctokens = ground arith } }

  pub repay-Books : Ensures (λ x. Books r x n 0 0 0) (Reserve.repay n r)
  unfolding Reserve.repay Liquidity.repay
  repay-Books = record { holds = λ x h. record { tokens = ground arith; ctokens = ground arith } }

-- An instruction first brings the reserve up to date.
module _ {A : Type 0} (next : Reserve → Result A) (left : A → Reserve) (i o s b : A → ℕ) where
  accrued-Books :
      (slot : ℕ) (r : Reserve)
      → ((r1 : Reserve) → Ensures (λ x. Books r1 (left x) (i x) (o x) (s x) (b x)) (next r1))
      → Ensures
          (λ x. Books r (left x) (i x) (o x) (s x) (b x))
          (Reserve.accrue_interest slot r >>= next)
  accrued-Books slot r books =
      step (Reserve.accrue_interest slot r)
        λ r1 h. follows (books r1) λ x k. after ((accrue_interest-SameBooks slot r).holds r1 h) k

module _ (slot n : ℕ) (r : Reserve) where
  pub deposit_reserve-Books : Ensures (λ x. Books r (x.0) n 0 (x.1) 0) (deposit_reserve slot n r)
  unfolding deposit_reserve
  deposit_reserve-Books = step (require (is_active r.config) LendingError.invalid_config) λ _ _.
      accrued-Books (Reserve.deposit_liquidity n) (λ x. x.0) (λ x. n) (λ x. 0) (λ x. x.1) (λ x. 0)
        slot r (deposit_liquidity-Books n)

  pub withdraw_reserve-Books : Ensures (λ x. Books r (x.0) 0 (x.1) 0 n) (withdraw_reserve slot n r)
  unfolding withdraw_reserve
  withdraw_reserve-Books = step (require (is_active r.config) LendingError.invalid_config) λ _ _.
      accrued-Books (Reserve.redeem_collateral n) (λ x. x.0) (λ x. 0) (λ x. x.1) (λ x. 0) (λ x. n)
        slot r (redeem_collateral-Books n)

  lent-Books :
      Ensures (λ x. Books r x 0 n 0 0) (Reserve.accrue_interest slot r >>= Reserve.borrow n)
  lent-Books =
      accrued-Books (Reserve.borrow n) (λ x. x) (λ x. 0) (λ x. n) (λ x. 0) (λ x. 0) slot r
        (borrow-Books n)

  pub borrow_reserve-Books : Ensures (λ x. Books r x 0 n 0 0) (borrow_reserve slot n r)
  unfolding borrow_reserve
  borrow_reserve-Books = step (require (is_active r.config) LendingError.invalid_config) λ _ _.
      step (require (ltb 0 (r.liquidity.market_price_sf)) LendingError.price_not_valid)
        λ _ _. lent-Books

  pub private_borrow_reserve-Books :
      Ensures (λ x. Books r x 0 n 0 0) (private_borrow_reserve slot n r)
  unfolding private_borrow_reserve
  private_borrow_reserve-Books =
      step (require (is_active r.config) LendingError.invalid_config) λ _ _.
        step
          (require (not (oracle_is_set r) || ltb 0 (r.liquidity.market_price_sf))
            LendingError.price_not_valid)
          λ _ _. lent-Books

  pub repay_reserve-Books : Ensures (λ x. Books r (x.0) n 0 0 0) (repay_reserve slot n r)
  unfolding repay_reserve
  repay_reserve-Books = step (require (is_active r.config) LendingError.invalid_config) λ _ _.
      step (Reserve.accrue_interest slot r) λ r1 h. step (Reserve.repay n r1) λ r' k.
        returns
          (after ((accrue_interest-SameBooks slot r).holds r1 h) ((repay-Books n r1).holds r' k))

pub ready_reserve-SameBooks :
    (slot : ℕ) (r : Reserve) → Ensures (SameBooks r) (ready_reserve slot r)
unfolding ready_reserve
ready_reserve-SameBooks slot r =
    step (require (is_active r.config) LendingError.invalid_config) λ _ _.
      step (Reserve.accrue_interest slot r) λ r1 h.
        step (require (ltb 0 (r1.liquidity.market_price_sf)) LendingError.price_not_valid)
          λ _ _. returns ((accrue_interest-SameBooks slot r).holds r1 h)

pub refresh-SameBooks :
    (oracle : Pubkey) (u : Option PriceUpdate) (clock : Clock) (r : Reserve)
    → Ensures (SameBooks r) (refresh oracle u clock r)
unfolding refresh
refresh-SameBooks oracle u clock r =
    step (require (oracle == r.config.pyth_oracle) LendingError.invalid_config) λ _ _.
      step (Reserve.accrue_interest (clock.slot) r) λ r1 h.
        step (get_pyth_price u max_age_seconds (clock.unix_timestamp)) λ (price, time) _.
          let same = (accrue_interest-SameBooks (clock.slot) r).holds r1 h in
          returns (record { tokens = same.tokens; ctokens = same.ctokens })
