-- ===== src/Circuits.antt =====
-- encrypted-ixs/src/lib.rs: the circuits that the MXE cluster runs on a confidential position.
-- The types of ciphertexts, encryption and the arithmetic of the circuits' u64 values are those of
-- the arcis crate, so they are a parameter.
pub mod Positions
pub mod Health
use veil_vault.Base.{ℕ, Bool, leb, if◌then◌else◌}

pub record PrivatePosition : Type 0 where
  pub collateral_tokens : ℕ
  pub borrow_tokens : ℕ

-- `Secret` is `Enc<Mxe, PrivatePosition>` and `Shared` is `Enc<Shared, u64>`.
pub record Arcis (Secret Shared : Type 0) : Type 0 where
  pub to_arcis : Secret → PrivatePosition
  pub from_arcis : PrivatePosition → Secret
  pub shared_to_arcis : Shared → ℕ
  -- `+`, `-`, `*` and `/` on u64
  pub add : ℕ → ℕ → ℕ
  pub sub : ℕ → ℕ → ℕ
  pub mul : ℕ → ℕ → ℕ
  pub div : ℕ → ℕ → ℕ

-- `Mxe::get().from_arcis(pos)` and `state.owner.from_arcis(pos)` have the same owner, the MXE.
module _ {Secret Shared : Type 0} (arcis : Arcis Secret Shared) where
  open arcis use {to_arcis, from_arcis, shared_to_arcis, add, sub, mul, div}

  unfoldable pub init_position_v2 : Secret
  init_position_v2 = from_arcis (record { collateral_tokens = 0; borrow_tokens = 0 })

  unfoldable pub add_collateral_v2 : Shared → Secret → Secret
  add_collateral_v2 amount state =
      let delta = shared_to_arcis amount in
      let pos = to_arcis state in
      from_arcis (record pos { collateral_tokens = add (pos.collateral_tokens) delta })

  unfoldable pub remove_collateral_2 : Shared → Secret → Secret
  remove_collateral_2 amount state =
      let delta = shared_to_arcis amount in
      let pos = to_arcis state in
      let decreased =
        if leb delta pos.collateral_tokens then sub (pos.collateral_tokens) delta else 0 in
      from_arcis (record pos { collateral_tokens = decreased })

  unfoldable pub add_borrow_v2 : Shared → Secret → Secret
  add_borrow_v2 amount state =
      let delta = shared_to_arcis amount in
      let pos = to_arcis state in
      from_arcis (record pos { borrow_tokens = add (pos.borrow_tokens) delta })

  unfoldable pub remove_borrow_2 : Shared → Secret → Secret
  remove_borrow_2 amount state =
      let delta = shared_to_arcis amount in
      let pos = to_arcis state in
      let decreased = if leb delta pos.borrow_tokens then sub (pos.borrow_tokens) delta else 0 in
      from_arcis (record pos { borrow_tokens = decreased })

  unfoldable pub check_health_v2 :
      Secret → (exchange_rate_bps collateral_price_cents borrow_price_cents ltv_bps : ℕ) → Bool
  check_health_v2 state exchange_rate_bps collateral_price_cents borrow_price_cents ltv_bps =
      let pos = to_arcis state in
      let coll_adj =
        div (mul (mul (pos.collateral_tokens) exchange_rate_bps) ltv_bps) 100_000_000 in
      let coll_value = mul coll_adj collateral_price_cents in
      let borr_value = mul (pos.borrow_tokens) borrow_price_cents in leb borr_value coll_value
