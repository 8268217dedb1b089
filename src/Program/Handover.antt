-- ===== src/Program/Handover.antt =====
-- What a pause or a change of owner does to the instructions of lib.rs that name the market.
use veil_vault.Base.{
  ℕ, ◌≡◌, ◌≢◌, true, false, Option, none, some, [], ◌∷◌, Result, ok, arith, >>=-elim, ap,
}
use mathlib.Core.Path.{subst}
use veil_vault.Constants.{Pubkey}
use veil_vault.Market.{LendingMarket, is_paused}
use veil_vault.Runtime.{Clock, Runtime, World, is_key, text, key}
use veil_vault.Arcium.{Arcium}
use veil_vault.Private.{Chain, put_world}
use veil_vault.Instructions.Admin.{OwnerAccounts, set_pause, update_market_authority}
use veil_vault.Instructions.Handover.{set_pause-effect, update_market_authority-effect}
use veil_vault.Instructions.Gates.{
  Derived, Admits, deposit-gate, withdraw-gate, deposit_collateral-gate, withdraw_collateral-gate,
  borrow-gate, repay-gate, liquidate-gate, update_reserve_config-gate, add_reserve-gate,
}
use veil_vault.Private.Gates.{
  private_deposit_collateral-gate, private_borrow-gate, private_check_liquidatable-gate,
  init_private_obligation-gate, execute_private_liquidation-gate,
}
use veil_vault.Program.{Instruction, process, publicly}

-- The market of an instruction that moves tokens other than a repayment, or that adds a reserve.
abbrev pub pausable_market : {Out : Type 0} → Instruction Out → Option Pubkey
pausable_market (Instruction.add_reserve a p) = some a.lending_market
pausable_market (Instruction.deposit a n) = some a.lending_market
pausable_market (Instruction.withdraw a n) = some a.lending_market
pausable_market (Instruction.deposit_collateral a n) = some a.lending_market
pausable_market (Instruction.withdraw_collateral a n) = some a.lending_market
pausable_market (Instruction.borrow a n) = some a.lending_market
pausable_market (Instruction.liquidate a n) = some a.lending_market
pausable_market (Instruction.private_deposit_collateral a k n e) = some a.lending_market
pausable_market (Instruction.private_borrow a k n e) = some a.lending_market
pausable_market (Instruction.execute_private_liquidation a n) = some a.lending_market
pausable_market i = none

-- The market of one of these, of a repayment, of an owner's instruction, or of one that opens or
-- checks a confidential position.
abbrev pub market_of : {Out : Type 0} → Instruction Out → Option Pubkey
market_of (Instruction.repay a n) = some a.lending_market
market_of (Instruction.set_pause a b) = some a.lending_market
market_of (Instruction.update_reserve_config a p) = some a.lending_market
market_of (Instruction.update_market_authority a k) = some a.lending_market
market_of (Instruction.init_private_obligation a k) = some a.lending_market
market_of (Instruction.private_check_liquidatable a k h) = some a.lending_market
market_of i = pausable_market i

module _ {T Q Out : Type 0} (rt : Runtime T) (ar : Arcium Q Out) where
  -- None of the instructions that move tokens, but for repayments, succeeds on the market.
  pub record Halts (c : Chain T Q) (k : Pubkey) : Type 0 where
    pub fails :
        (clock : Clock) (i : Instruction Out) (c' : Chain T Q)
        → pausable_market i ≡ some k
        → process rt ar clock i c ≢ ok c'

  -- No instruction that names the market succeeds.
  pub record Strands (c : Chain T Q) (k : Pubkey) : Type 0 where
    pub fails :
        (clock : Clock) (i : Instruction Out) (c' : Chain T Q)
        → market_of i ≡ some k
        → process rt ar clock i c ≢ ok c'

  -- A stored market whose address is the one of its owner.
  abbrev Addressed : Chain T Q → Pubkey → Type 0
  Addressed c k = (m : LendingMarket) × (c.world.markets k ≡ some m) × Derived rt m k

  made_publicly :
      (m : Result (World T)) (c c' : Chain T Q)
      → publicly m c ≡ ok c'
      → (w : World T) × (m ≡ ok w) × (c' ≡ put_world w c)
  made_publicly m c c' h = >>=-elim m _ h λ w e k. (w, e, cc)

  at_market : (P : Pubkey → Type 0) {j k : Pubkey} → some j ≡ some k → P j → P k
  at_market P {j} {k} e p = let same : j ≡ k = cc in subst P same p

  process-Admits :
      (clock : Clock) (i : Instruction Out) (c c' : Chain T Q) (k : Pubkey)
      → pausable_market i ≡ some k
      → process rt ar clock i c ≡ ok c'
      → Admits rt c.world k
  unfolding process
  process-Admits clock (Instruction.add_reserve a p) c c' k e h =
      let (w, q, _) = made_publicly _ c c' h in
      at_market (Admits rt c.world) e (add_reserve-gate rt a p clock c.world w q)
  process-Admits clock (Instruction.deposit a n) c c' k e h =
      let (w, q, _) = made_publicly _ c c' h in
      at_market (Admits rt c.world) e (deposit-gate rt a n clock c.world w q)
  process-Admits clock (Instruction.withdraw a n) c c' k e h =
      let (w, q, _) = made_publicly _ c c' h in
      at_market (Admits rt c.world) e (withdraw-gate rt a n clock c.world w q)
  process-Admits clock (Instruction.deposit_collateral a n) c c' k e h =
      let (w, q, _) = made_publicly _ c c' h in
      at_market (Admits rt c.world) e (deposit_collateral-gate rt a n clock c.world w q)
  process-Admits clock (Instruction.withdraw_collateral a n) c c' k e h =
      let (w, q, _) = made_publicly _ c c' h in
      at_market (Admits rt c.world) e (withdraw_collateral-gate rt a n clock c.world w q)
  process-Admits clock (Instruction.borrow a n) c c' k e h =
      let (w, q, _) = made_publicly _ c c' h in
      at_market (Admits rt c.world) e (borrow-gate rt a n clock c.world w q)
  process-Admits clock (Instruction.liquidate a n) c c' k e h =
      let (w, q, _) = made_publicly _ c c' h in
      at_market (Admits rt c.world) e (liquidate-gate rt a n clock c.world w q)
  process-Admits clock (Instruction.private_deposit_collateral a j n d) c c' k e h =
      at_market (Admits rt c.world) e (private_deposit_collateral-gate rt ar a j n d c c' h)
  process-Admits clock (Instruction.private_borrow a j n d) c c' k e h =
      at_market (Admits rt c.world) e (private_borrow-gate rt ar a j n d clock c c' h)
  process-Admits clock (Instruction.execute_private_liquidation a n) c c' k e h =
      at_market (Admits rt c.world) e (execute_private_liquidation-gate rt a n clock c c' h)
  process-Admits clock _ c c' k e h = absurd cc

  admitted :
      (clock : Clock) (i : Instruction Out) (c c' : Chain T Q) (k : Pubkey)
      → pausable_market i ≡ some k
      → process rt ar clock i c ≡ ok c'
      → Addressed c k
  admitted clock i c c' k e h =
      let (m, p, d, unpaused) = process-Admits clock i c c' k e h in (m, p, d)

  process-Addressed :
      (clock : Clock) (i : Instruction Out) (c c' : Chain T Q) (k : Pubkey)
      → market_of i ≡ some k
      → process rt ar clock i c ≡ ok c'
      → Addressed c k
  unfolding process
  process-Addressed clock (Instruction.repay a n) c c' k e h =
      let (w, q, _) = made_publicly _ c c' h in
      at_market (Addressed c) e (repay-gate rt a n clock c.world w q)
  process-Addressed clock (Instruction.set_pause a b) c c' k e h =
      let (w, q, _) = made_publicly _ c c' h in
      let (m, p, d, _, _) = set_pause-effect rt a b c.world w q in
      at_market (Addressed c) e (m, p, d)
  process-Addressed clock (Instruction.update_reserve_config a p) c c' k e h =
      let (w, q, _) = made_publicly _ c c' h in
      at_market (Addressed c) e (update_reserve_config-gate rt a p c.world w q)
  process-Addressed clock (Instruction.update_market_authority a new) c c' k e h =
      let (w, q, _) = made_publicly _ c c' h in
      let (m, p, d, _) = update_market_authority-effect rt a new c.world w q in
      at_market (Addressed c) e (m, p, d)
  process-Addressed clock (Instruction.init_private_obligation a j) c c' k e h =
      at_market (Addressed c) e (init_private_obligation-gate rt ar a j c c' h)
  process-Addressed clock (Instruction.private_check_liquidatable a j d) c c' k e h =
      at_market (Addressed c) e (private_check_liquidatable-gate rt ar a j d c c' h)
  process-Addressed clock i c c' k e h = admitted clock i c c' k e h

  -- Once a market is paused, then in every state where the market's account is still as that call
  -- left it, no deposit, withdrawal, deposit or release of collateral, loan or liquidation on it
  -- succeeds, public or confidential, and no reserve is added to it. (A repayment is not among
  -- them.)
  pub set_pause-Halts :
      (a : OwnerAccounts) (w w' : World T) (c : Chain T Q)
      → set_pause rt a true w ≡ ok w'
      → c.world.markets a.lending_market ≡ w'.markets a.lending_market
      → Halts c a.lending_market
  unfolding is_paused
  set_pause-Halts a w w' c h kept =
      let (m, p, d, q, e) = set_pause-effect rt a true w w' h in
      let at = ap (λ x. x.markets a.lending_market) e in
      record {
        fails = λ clock i c' named done.
            let (m', p', d', unpaused) = process-Admits clock i c c' a.lending_market named done in
            ground arith;
      }

  -- The market's address was derived from its first owner. So where the seeds of the new owner do
  -- not give that address too, a change of owner stops the market: in every state where the
  -- market's account is still as that call left it, none of these succeeds on it: a deposit, a
  -- withdrawal, a deposit or a release of collateral, a loan or a liquidation, public or
  -- confidential; a repayment; opening or checking a confidential position; adding a reserve or
  -- changing a reserve's configuration; pausing the market, unpausing it or handing it over again.
  pub update_market_authority-Strands :
      (a : OwnerAccounts) (new : Pubkey) (w w' : World T) (c : Chain T Q)
      → ((bump : ℕ)
          → is_key
              (rt.create_program_address (text "lending_market" ∷ key new ∷ []) bump)
              a.lending_market
            ≡ false)
      → update_market_authority rt a new w ≡ ok w'
      → c.world.markets a.lending_market ≡ w'.markets a.lending_market
      → Strands c a.lending_market
  update_market_authority-Strands a new w w' c distinct h kept =
      let (m, p, d, e) = update_market_authority-effect rt a new w w' h in
      let at = ap (λ x. x.markets a.lending_market) e in
      record {
        fails = λ clock i c' named done.
            let (m', q, d') = process-Addressed clock i c c' a.lending_market named done in
            let owns : m'.owner ≡ new = ground arith in ground (arith, distinct m'.bump);
      }
