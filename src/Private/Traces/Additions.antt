-- ===== src/Private/Traces/Additions.antt =====
-- programs/veilvault/src/instructions/{private_deposit_collateral, private_borrow}.rs: the values
-- and the outcomes of the calls along a successful run.
use veil_vault.Base.{
  ℕ, ◌≡◌, refl, LendingError, ok, require, or_failed, or_missing, ltb, not, Ensures, step, returns,
}
use veil_vault.Market.{LendingMarket, is_paused}
use veil_vault.Reserve.{Reserve}
use veil_vault.Reserve.Config.{is_active}
use veil_vault.Obligation
use veil_vault.Obligation.{Obligation}
use veil_vault.Runtime.{Clock, Runtime, put_reserve, put_obligation, put_tokens}
use veil_vault.Private.{PrivateObligation, Chain, put_private, put_world, put_arcium}
use veil_vault.Arcium.{Arcium}
use veil_vault.Private.DepositCollateral.{
  PrivateDepositCollateralAccounts, EncryptedAmount, add_args, note_collateral_reserve,
  private_deposit_collateral_check, private_deposit_collateral,
}
use veil_vault.Private.Borrow.{
  PrivateBorrowAccounts, oracle_is_set, private_borrow_reserve, private_borrow_obligation,
  note_borrow_reserve, private_borrow_check, private_borrow,
}

module _ {T Q Out : Type 0} (rt : Runtime T) (ar : Arcium Q Out)
    (a : PrivateDepositCollateralAccounts) (computation_offset collateral_amount : ℕ)
    (e : EncryptedAmount) (c : Chain T Q) where
  pub record Locked (c' : Chain T Q) : Type 0 where
    pub m : LendingMarket
    pub m_is : or_missing (c.world.markets a.lending_market) ≡ ok m
    pub r : Reserve
    pub r_is : or_missing (c.world.reserves a.reserve) ≡ ok r
    pub decimals : ℕ
    pub decimals_is : or_missing (rt.mint_decimals c.world.tokens a.collateral_mint) ≡ ok decimals
    pub o : Obligation
    pub o_is : or_missing (c.world.obligations a.obligation) ≡ ok o
    pub po : PrivateObligation
    pub po_is : or_missing (c.private_obligations a.private_obligation) ≡ ok po
    pub checked :
        private_deposit_collateral_check rt ar a computation_offset m po c.world.tokens c.arcium
        ≡ ok tt
    pub positive : require (ltb 0 collateral_amount) LendingError.invalid_amount ≡ ok tt
    pub initialized :
        require po.is_initialized LendingError.private_obligation_not_initialized ≡ ok tt
    pub open_market : require (not (is_paused m)) LendingError.invalid_config ≡ ok tt
    pub active : require (is_active r.config) LendingError.invalid_config ≡ ok tt
    pub o' : Obligation
    pub o'_is : Obligation.deposit a.reserve collateral_amount o ≡ ok o'
    pub t : T
    pub t_is :
        or_failed (
          rt.transfer_checked a.user_collateral_account a.collateral_mint a.collateral_supply_vault
            a.depositor collateral_amount decimals c.world.tokens)
        ≡ ok t
    pub q : Q
    pub q_is :
        or_failed (
          ar.queue_computation
            (record {
              offset = computation_offset;
              circuit = "add_collateral_v2";
              args = add_args e (note_collateral_reserve a.reserve po) a.private_obligation;
              callback_account = a.private_obligation;
            })
            c.arcium)
        ≡ ok q
    pub made :
        c'
        ≡ put_arcium q (
            put_private a.private_obligation
              (note_collateral_reserve a.reserve po)
              (record (put_world (put_tokens t (put_obligation a.obligation o' c.world)) c) {
                sign_bump = ar.sign_pda.1;
              }))

  pub private_deposit_collateral-Locked :
      Ensures Locked (private_deposit_collateral rt ar a computation_offset collateral_amount e c)
  unfolding private_deposit_collateral
  private_deposit_collateral-Locked = step (or_missing (c.world.markets a.lending_market)) λ m h0.
      step (or_missing (c.world.reserves a.reserve)) λ r h1.
        step (or_missing (rt.mint_decimals c.world.tokens a.collateral_mint)) λ decimals h2.
          step (or_missing (c.world.obligations a.obligation)) λ o h3.
            step (or_missing (c.private_obligations a.private_obligation)) λ po h4.
              step
                (private_deposit_collateral_check rt ar a computation_offset m po c.world.tokens
                  c.arcium)
                λ _ h5. step (require (ltb 0 collateral_amount) LendingError.invalid_amount) λ _ h6.
                  step (require po.is_initialized LendingError.private_obligation_not_initialized)
                    λ _ h7. step (require (not (is_paused m)) LendingError.invalid_config) λ _ h8.
                      step (require (is_active r.config) LendingError.invalid_config) λ _ h9.
                        step (Obligation.deposit a.reserve collateral_amount o) λ o' h10.
                          step
                            (or_failed (
                              rt.transfer_checked a.user_collateral_account a.collateral_mint
                                a.collateral_supply_vault a.depositor collateral_amount decimals
                                c.world.tokens))
                            λ t h11.
                              step
                                (or_failed (
                                  ar.queue_computation
                                    (record {
                                      offset = computation_offset;
                                      circuit = "add_collateral_v2";
                                      args =
                                          add_args e (note_collateral_reserve a.reserve po)
                                            a.private_obligation;
                                      callback_account = a.private_obligation;
                                    })
                                    c.arcium))
                                λ q h12. returns (record {
                                  m = m;
                                  m_is = h0;
                                  r = r;
                                  r_is = h1;
                                  decimals = decimals;
                                  decimals_is = h2;
                                  o = o;
                                  o_is = h3;
                                  po = po;
                                  po_is = h4;
                                  checked = h5;
                                  positive = h6;
                                  initialized = h7;
                                  open_market = h8;
                                  active = h9;
                                  o' = o';
                                  o'_is = h10;
                                  t = t;
                                  t_is = h11;
                                  q = q;
                                  q_is = h12;
                                  made = refl;
                                })

module _ {T Q Out : Type 0} (rt : Runtime T) (ar : Arcium Q Out) (a : PrivateBorrowAccounts)
    (computation_offset amount : ℕ) (e : EncryptedAmount) (clock : Clock) (c : Chain T Q) where
  pub record Borrowed (c' : Chain T Q) : Type 0 where
    pub m : LendingMarket
    pub m_is : or_missing (c.world.markets a.lending_market) ≡ ok m
    pub o : Obligation
    pub o_is : or_missing (c.world.obligations a.obligation) ≡ ok o
    pub r : Reserve
    pub r_is : or_missing (c.world.reserves a.reserve) ≡ ok r
    pub decimals : ℕ
    pub decimals_is : or_missing (rt.mint_decimals c.world.tokens a.reserve_mint) ≡ ok decimals
    pub po : PrivateObligation
    pub po_is : or_missing (c.private_obligations a.private_obligation) ≡ ok po
    pub checked :
        private_borrow_check rt ar a computation_offset m po c.world.tokens c.arcium ≡ ok tt
    pub positive : require (ltb 0 amount) LendingError.invalid_amount ≡ ok tt
    pub initialized :
        require po.is_initialized LendingError.private_obligation_not_initialized ≡ ok tt
    pub open_market : require (not (is_paused m)) LendingError.invalid_config ≡ ok tt
    pub r' : Reserve
    pub r'_is : private_borrow_reserve clock.slot amount r ≡ ok r'
    pub o' : Obligation
    pub o'_is :
        private_borrow_obligation
          (oracle_is_set r)
          a.reserve
          amount
          (r'.liquidity.cumulative_borrow_rate_sf)
          (r'.liquidity.market_price_sf)
          clock.slot
          o
        ≡ ok o'
    pub t : T
    pub t_is :
        or_failed (
          rt.transfer_checked a.liquidity_vault a.reserve_mint a.user_token_account a.lending_market
            amount decimals c.world.tokens)
        ≡ ok t
    pub q : Q
    pub q_is :
        or_failed (
          ar.queue_computation
            (record {
              offset = computation_offset;
              circuit = "add_borrow_v2";
              args = add_args e (note_borrow_reserve a.reserve po) a.private_obligation;
              callback_account = a.private_obligation;
            })
            c.arcium)
        ≡ ok q
    pub made :
        c'
        ≡ put_arcium q (
            put_private a.private_obligation
              (note_borrow_reserve a.reserve po)
              (record (put_world
                (put_tokens t (put_obligation a.obligation o' (put_reserve a.reserve r' c.world)))
                c) { sign_bump = ar.sign_pda.1 }))

  pub private_borrow-Borrowed :
      Ensures Borrowed (private_borrow rt ar a computation_offset amount e clock c)
  unfolding private_borrow
  private_borrow-Borrowed = step (or_missing (c.world.markets a.lending_market)) λ m h0.
      step (or_missing (c.world.obligations a.obligation)) λ o h1.
        step (or_missing (c.world.reserves a.reserve)) λ r h2.
          step (or_missing (rt.mint_decimals c.world.tokens a.reserve_mint)) λ decimals h3.
            step (or_missing (c.private_obligations a.private_obligation)) λ po h4.
              step (private_borrow_check rt ar a computation_offset m po c.world.tokens c.arcium)
                λ _ h5. step (require (ltb 0 amount) LendingError.invalid_amount) λ _ h6.
                  step (require po.is_initialized LendingError.private_obligation_not_initialized)
                    λ _ h7. step (require (not (is_paused m)) LendingError.invalid_config) λ _ h8.
                      step (private_borrow_reserve clock.slot amount r) λ r' h9.
                        step
                          (private_borrow_obligation (oracle_is_set r) a.reserve amount
                            (r'.liquidity.cumulative_borrow_rate_sf) (r'.liquidity.market_price_sf)
                            clock.slot o)
                          λ o' h10.
                            step
                              (or_failed (
                                rt.transfer_checked a.liquidity_vault a.reserve_mint
                                  a.user_token_account a.lending_market amount decimals
                                  c.world.tokens))
                              λ t h11.
                                step
                                  (or_failed (
                                    ar.queue_computation
                                      (record {
                                        offset = computation_offset;
                                        circuit = "add_borrow_v2";
                                        args =
                                            add_args e (note_borrow_reserve a.reserve po)
                                              a.private_obligation;
                                        callback_account = a.private_obligation;
                                      })
                                      c.arcium))
                                  λ q h12. returns (record {
                                    m = m;
                                    m_is = h0;
                                    o = o;
                                    o_is = h1;
                                    r = r;
                                    r_is = h2;
                                    decimals = decimals;
                                    decimals_is = h3;
                                    po = po;
                                    po_is = h4;
                                    checked = h5;
                                    positive = h6;
                                    initialized = h7;
                                    open_market = h8;
                                    r' = r';
                                    r'_is = h9;
                                    o' = o';
                                    o'_is = h10;
                                    t = t;
                                    t_is = h11;
                                    q = q;
                                    q_is = h12;
                                    made = refl;
                                  })
