-- ===== src/Program/Gated/Steps.antt =====
-- What one instruction does to a record that is gated.
use veil_vault.Base.{
  ◌≡◌, ◌≢◌, refl, Bool, true, false, ◌||◌, Option, none, some, Result, ok, arith, >>=-elim,
  or_failed, ◌>>=◌,
}
use mathlib.Core.Path.{subst}
use veil_vault.Constants.{Pubkey, default_key}
use veil_vault.Runtime.{Clock, Runtime, World}
use veil_vault.Arcium.{Arcium}
use veil_vault.Private.{PrivateObligation, Chain, put_arcium}
use veil_vault.Arcium.{comp_def_accounts_check}
use veil_vault.Private.Setup.{or_new, init_position_comp_def}
use veil_vault.Private.DepositCollateral.{add_collateral_comp_def}
use veil_vault.Private.Borrow.{add_borrow_comp_def}
use veil_vault.Private.Check.{check_health_comp_def}
use veil_vault.Program.{Instruction, process, publicly}
use veil_vault.Program.Changes.Defs.{target, Change}

-- The instructions that queue an addition or a health check, and the callbacks of these.
abbrev pub asks : {Out : Type 0} → Instruction Out → Bool
asks (Instruction.private_deposit_collateral a n m e) = true
asks (Instruction.private_borrow a n m e) = true
asks (Instruction.private_check_liquidatable a n h) = true
asks i = false

abbrev pub answers : {Out : Type 0} → Instruction Out → Bool
answers (Instruction.add_collateral_v2_callback a out) = true
answers (Instruction.add_borrow_v2_callback a out) = true
answers (Instruction.check_health_v2_callback a out) = true
answers i = false

-- Everything that a record can come to have but its owner presupposes that it is initialized; so
-- does an addition or a health check that was queued for it.
pub record IsGated (asked : Bool) (po : PrivateObligation) : Type 0 where
  pub flagged : po.is_liquidatable ≡ true → po.is_initialized ≡ true
  pub deposited : po.collateral_reserve ≢ default_key → po.is_initialized ≡ true
  pub borrowed : po.borrow_reserve ≢ default_key → po.is_initialized ≡ true
  pub awaited : asked ≡ true → po.is_initialized ≡ true

when_initialized :
    (asked : Bool) (po : PrivateObligation) → po.is_initialized ≡ true → IsGated asked po
when_initialized asked po h = record {
  flagged = λ e. h;
  deposited = λ e. h;
  borrowed = λ e. h;
  awaited = λ e. h;
}

-- The same flag, reserves and initialization.
kept :
    (asked : Bool) (po po' : PrivateObligation)
    → po'.is_initialized ≡ po.is_initialized
    → po'.is_liquidatable ≡ po.is_liquidatable
    → po'.collateral_reserve ≡ po.collateral_reserve
    → po'.borrow_reserve ≡ po.borrow_reserve
    → IsGated asked po
    → IsGated asked po'
kept asked po po' i f c b g = record {
  flagged = λ e. let p = g.flagged in ground arith;
  deposited = λ e. let p = g.deposited in ground arith;
  borrowed = λ e. let p = g.borrowed in ground arith;
  awaited = λ e. let p = g.awaited in ground arith;
}

by_world :
    {T Q : Type 0} (m : Result (World T)) (c c' : Chain T Q)
    → publicly m c ≡ ok c'
    → c'.private_obligations ≡ c.private_obligations
by_world m c c' h = >>=-elim m _ h λ w e k. ground arith

by_definition :
    {T Q : Type 0} (x : Option Q) (c c' : Chain T Q)
    → (or_failed x >>= λ q. ok (put_arcium q c)) ≡ ok c'
    → c'.private_obligations ≡ c.private_obligations
by_definition x c c' h = >>=-elim (or_failed x) _ h λ q e k. ground arith

module _ {T Q Out : Type 0} (rt : Runtime T) (ar : Arcium Q Out) where
  pub Change-IsGated :
      (asked : Bool) (i : Instruction Out) (before : Option PrivateObligation)
      (after : PrivateObligation) (q q' : Q) (k : Pubkey)
      → target i ≡ some k
      → Change rt ar i before after q q'
      → (answers i ≡ true → asked ≡ true)
      → IsGated asked (or_new before)
      → IsGated (asked || asks i) after
  Change-IsGated asked (Instruction.init_private_obligation a n) before after q q' k t (f, e, _) w
        g =
      rw e (record {
        flagged = λ x. absurd cc;
        deposited = λ x. absurd (x refl);
        borrowed = λ x. absurd (x refl);
        awaited = λ x. let p = g.awaited in absurd (ground arith);
      })
  Change-IsGated asked (Instruction.private_deposit_collateral a n m d) before after q q' k t
        (po, b, i, e, _) w g =
      when_initialized _ after (rw e i)
  Change-IsGated asked (Instruction.private_borrow a n m d) before after q q' k t (po, b, i, e, _) w
        g =
      when_initialized _ after (rw e i)
  Change-IsGated asked (Instruction.private_check_liquidatable a n h) before after q q' k t
        (b, i, _) w g =
      when_initialized _ after i
  Change-IsGated asked (Instruction.execute_private_liquidation a n) before after q q' k t
        (po, b, f, e, _) w g =
      let g' = subst (λ x. IsGated asked (or_new x)) b g in
      when_initialized _ after (rw e (g'.flagged f))
  Change-IsGated asked (Instruction.init_position_v2_callback a out) before after q q' k t
        (po, enc, b, v, e, _) w g =
      when_initialized _ after (rw e refl)
  Change-IsGated asked (Instruction.add_collateral_v2_callback a out) before after q q' k t
        (po, enc, b, v, e, _) w g =
      let g' = subst (λ x. IsGated asked (or_new x)) b g in
      when_initialized _ after (rw e (g'.awaited (w refl)))
  Change-IsGated asked (Instruction.add_borrow_v2_callback a out) before after q q' k t
        (po, enc, b, v, e, _) w g =
      let g' = subst (λ x. IsGated asked (or_new x)) b g in
      when_initialized _ after (rw e (g'.awaited (w refl)))
  Change-IsGated asked (Instruction.check_health_v2_callback a out) before after q q' k t
        (po, healthy, b, v, e, _) w g =
      let g' = subst (λ x. IsGated asked (or_new x)) b g in
      when_initialized _ after (rw e (g'.awaited (w refl)))
  Change-IsGated asked _ before after q q' k t x w g = absurd cc

  -- An instruction that is about no record leaves them all.
  pub untouched :
      (clock : Clock) (i : Instruction Out) (c c' : Chain T Q)
      → target i ≡ none
      → process rt ar clock i c ≡ ok c'
      → c'.private_obligations ≡ c.private_obligations
  unfolding process init_position_comp_def add_collateral_comp_def add_borrow_comp_def
      check_health_comp_def
  untouched clock (Instruction.initialize_market a p) c c' t h = by_world _ c c' h
  untouched clock (Instruction.add_reserve a p) c c' t h = by_world _ c c' h
  untouched clock (Instruction.deposit a n) c c' t h = by_world _ c c' h
  untouched clock (Instruction.deposit_collateral a n) c c' t h = by_world _ c c' h
  untouched clock (Instruction.withdraw_collateral a n) c c' t h = by_world _ c c' h
  untouched clock (Instruction.init_obligation a) c c' t h = by_world _ c c' h
  untouched clock (Instruction.borrow a n) c c' t h = by_world _ c c' h
  untouched clock (Instruction.repay a n) c c' t h = by_world _ c c' h
  untouched clock (Instruction.withdraw a n) c c' t h = by_world _ c c' h
  untouched clock (Instruction.refresh_reserve a u) c c' t h = by_world _ c c' h
  untouched clock (Instruction.refresh_obligation a) c c' t h = by_world _ c c' h
  untouched clock (Instruction.liquidate a n) c c' t h = by_world _ c c' h
  untouched clock (Instruction.set_pause a b) c c' t h = by_world _ c c' h
  untouched clock (Instruction.update_reserve_config a p) c c' t h = by_world _ c c' h
  untouched clock (Instruction.update_market_authority a k) c c' t h = by_world _ c c' h
  untouched clock (Instruction.init_position_comp_def a) c c' t h =
      >>=-elim (comp_def_accounts_check ar a c.arcium) _ h λ u e h'.
        by_definition
          (ar.init_comp_def "init_position_v2"
            (some
              "https://raw.githubusercontent.com/AsthaMishra/veil-vault/main/build/init_position_v2.arcis")
            a c.arcium)
          c c' h'
  untouched clock (Instruction.add_collateral_comp_def a) c c' t h =
      >>=-elim (comp_def_accounts_check ar a c.arcium) _ h λ u e h'.
        by_definition
          (ar.init_comp_def "add_collateral_v2"
            (some
              "https://raw.githubusercontent.com/AsthaMishra/veil-vault/main/build/add_collateral_v2.arcis")
            a c.arcium)
          c c' h'
  untouched clock (Instruction.add_borrow_comp_def a) c c' t h =
      >>=-elim (comp_def_accounts_check ar a c.arcium) _ h λ u e h'.
        by_definition
          (ar.init_comp_def "add_borrow_v2"
            (some
              "https://raw.githubusercontent.com/AsthaMishra/veil-vault/main/build/add_borrow_v2.arcis")
            a c.arcium)
          c c' h'
  untouched clock (Instruction.check_health_comp_def a) c c' t h =
      >>=-elim (comp_def_accounts_check ar a c.arcium) _ h
        λ u e h'. by_definition (ar.init_comp_def "check_health_v2" none a c.arcium) c c' h'
  untouched clock _ c c' t h = absurd cc
