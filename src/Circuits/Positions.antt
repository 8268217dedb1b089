-- ===== src/Circuits/Positions.antt =====
-- A confidential position over a history of circuit calls.
use veil_vault.Base.{
  ℕ, ◌+◌, ◌-◌, ◌^◌, ◌≤◌, ◌<◌, ◌≢◌, ◌*◌, ◌/◌, ◌≡◌, refl, sym, ap, ◌∙◌, List, [], ◌∷◌, arith,
}
use mathlib.Core.Path.{subst}
use veil_vault.Circuits.{
  PrivatePosition, Arcis, add_collateral_v2, remove_collateral_2, add_borrow_v2, remove_borrow_2,
}

-- What the arcis crate documents: decryption undoes encryption, and the operations are exact where
-- the exact result is a `u64`.
pub record IsExact {Secret Shared : Type 0} (arcis : Arcis Secret Shared) : Type 0 where
  pub opens : (p : PrivatePosition) → arcis.to_arcis (arcis.from_arcis p) ≡ p
  pub add_lem : (a b : ℕ) → a + b < 2 ^ 64 → arcis.add a b ≡ a + b
  pub sub_lem : (a b : ℕ) → b ≤ a → a < 2 ^ 64 → arcis.sub a b ≡ a - b
  pub mul_lem : (a b : ℕ) → a * b < 2 ^ 64 → arcis.mul a b ≡ a * b
  pub div_lem : (a b : ℕ) → b ≢ 0 → a < 2 ^ 64 → arcis.div a b ≡ a / b

-- The circuits that change a position.
pub data Op (Shared : Type 0) : Type 0 where
  add_collateral remove_collateral add_borrow remove_borrow : Shared → Op Shared

module _ {Secret Shared : Type 0} (arcis : Arcis Secret Shared) where
  pub call : Op Shared → Secret → Secret
  unfolding add_collateral_v2 remove_collateral_2 add_borrow_v2 remove_borrow_2
  call (add_collateral amount) s = add_collateral_v2 arcis amount s
  call (remove_collateral amount) s = remove_collateral_2 arcis amount s
  call (add_borrow amount) s = add_borrow_v2 arcis amount s
  call (remove_borrow amount) s = remove_borrow_2 arcis amount s

  pub calls : List (Op Shared) → Secret → Secret
  calls [] s = s
  calls (op ∷ ops) s = calls ops (call op s)

  -- The two counters in clear, in exact arithmetic; a removal stops at 0.
  abbrev pub effect : Op Shared → PrivatePosition → PrivatePosition
  effect (add_collateral amount) p = record p {
    collateral_tokens = p.collateral_tokens + arcis.shared_to_arcis amount;
  }
  effect (remove_collateral amount) p = record p {
    collateral_tokens = p.collateral_tokens - arcis.shared_to_arcis amount;
  }
  effect (add_borrow amount) p = record p {
    borrow_tokens = p.borrow_tokens + arcis.shared_to_arcis amount;
  }
  effect (remove_borrow amount) p = record p {
    borrow_tokens = p.borrow_tokens - arcis.shared_to_arcis amount;
  }

  abbrev pub effects : List (Op Shared) → PrivatePosition → PrivatePosition
  effects [] p = p
  effects (op ∷ ops) p = effects ops (effect op p)

  -- All that is ever added, of both kinds.
  abbrev pub added : List (Op Shared) → ℕ
  added [] = 0
  added (add_collateral amount ∷ ops) = arcis.shared_to_arcis amount + added ops
  added (add_borrow amount ∷ ops) = arcis.shared_to_arcis amount + added ops
  added (op ∷ ops) = added ops

  module _ (exact : IsExact arcis) where
    open exact use {opens, add_lem, sub_lem}

    call-effect :
        (op : Op Shared) (s : Secret)
        → (arcis.to_arcis s).collateral_tokens + (arcis.to_arcis s).borrow_tokens + added (op ∷ [])
          < 2 ^ 64
        → arcis.to_arcis (call op s) ≡ effect op (arcis.to_arcis s)
    unfolding call add_collateral_v2 remove_collateral_2 add_borrow_v2 remove_borrow_2
    call-effect (add_collateral amount) s h =
        let p = arcis.to_arcis s in
        let n = arcis.shared_to_arcis amount in
        opens _
        ∙ ap (λ x. record p { collateral_tokens = x }) (add_lem p.collateral_tokens n (omega arith))
    call-effect (remove_collateral amount) s h =
        let p = arcis.to_arcis s in
        let n = arcis.shared_to_arcis amount in
        opens _
        ∙ ap (λ x. record p { collateral_tokens = x })
            (ground (arith, sub_lem p.collateral_tokens n))
    call-effect (add_borrow amount) s h =
        let p = arcis.to_arcis s in
        let n = arcis.shared_to_arcis amount in
        opens _ ∙ ap (λ x. record p { borrow_tokens = x }) (add_lem p.borrow_tokens n (omega arith))
    call-effect (remove_borrow amount) s h =
        let p = arcis.to_arcis s in
        let n = arcis.shared_to_arcis amount in
        opens _
        ∙ ap (λ x. record p { borrow_tokens = x }) (ground (arith, sub_lem p.borrow_tokens n))

    effect-le :
        (op : Op Shared) (ops : List (Op Shared)) (p : PrivatePosition)
        → (effect op p).collateral_tokens + (effect op p).borrow_tokens + added ops
          ≤ p.collateral_tokens + p.borrow_tokens + added (op ∷ ops)
    effect-le (add_collateral amount) ops p = omega arith
    effect-le (remove_collateral amount) ops p = omega arith
    effect-le (add_borrow amount) ops p = omega arith
    effect-le (remove_borrow amount) ops p = omega arith

    added-first : (op : Op Shared) (ops : List (Op Shared)) → added (op ∷ []) ≤ added (op ∷ ops)
    added-first (add_collateral amount) ops = omega arith
    added-first (remove_collateral amount) ops = omega arith
    added-first (add_borrow amount) ops = omega arith
    added-first (remove_borrow amount) ops = omega arith

    -- As long as the start and all that is ever added fit a `u64`, any history of circuit calls
    -- does to the encrypted position what exact counters do in clear.
    pub calls-effects :
        (ops : List (Op Shared)) (s : Secret)
        → (arcis.to_arcis s).collateral_tokens + (arcis.to_arcis s).borrow_tokens + added ops
          < 2 ^ 64
        → arcis.to_arcis (calls ops s) ≡ effects ops (arcis.to_arcis s)
    unfolding calls
    calls-effects [] s h = refl
    calls-effects (op ∷ ops) s h =
        let first = call-effect op s (omega (arith, added-first op ops)) in
        let le = effect-le op ops (arcis.to_arcis s) in
        let fits =
          subst (λ p. p.collateral_tokens + p.borrow_tokens + added ops < 2 ^ 64) (sym first)
            (omega arith) in
        calls-effects ops (call op s) fits ∙ ap (effects ops) first
