-- ===== src/Tests/CircuitTests.antt =====
-- The circuits with positions kept in clear, and the operations on u64 that wrap around.
use veil_vault.Base.{ℕ, ◌+◌, ◌-◌, ◌*◌, ◌/◌, ◌%◌, ◌^◌, ◌≡◌, refl, [], ◌∷◌, arith, leb}
use veil_vault.Circuits.{PrivatePosition, Arcis, check_health_v2}
use veil_vault.Circuits.Positions.{IsExact, Op, calls, effects, calls-effects}
use veil_vault.Circuits.Health.{InRange, check_health_v2_lem}

abbrev in_clear : Arcis PrivatePosition ℕ
in_clear = record {
  to_arcis = λ s. s;
  from_arcis = λ p. p;
  shared_to_arcis = λ n. n;
  add = λ a b. (a + b) % 2 ^ 64;
  sub = λ a b. (a + 2 ^ 64 - b) % 2 ^ 64;
  mul = λ a b. (a * b) % 2 ^ 64;
  div = λ a b. a / b;
}

in_clear-IsExact : IsExact in_clear
in_clear-IsExact = record {
  opens = λ p. refl;
  add_lem = λ a b h. omega arith;
  sub_lem = λ a b h k. omega arith;
  mul_lem = λ a b h. grind arith;
  div_lem = λ a b ne h. refl;
}

-- 1000 tokens locked and 400 owed.
abbrev held : PrivatePosition
held = record { collateral_tokens = 1_000; borrow_tokens = 400 }

calls-effects_example :
    calls in_clear (Op.add_collateral 500 ∷ Op.remove_borrow 900 ∷ []) held
    ≡ effects in_clear (Op.add_collateral 500 ∷ Op.remove_borrow 900 ∷ []) held
calls-effects_example =
    calls-effects in_clear in_clear-IsExact (Op.add_collateral 500 ∷ Op.remove_borrow 900 ∷ []) held
      (omega arith)

in_range : (ltv : ℕ) → ltv ≡ 8_500 → InRange held 10_200 150 200 ltv
in_range ltv e = record {
  collateral = omega arith;
  borrow = omega arith;
  rate_le = omega arith;
  ltv_le = omega arith;
  price_le = omega arith;
  price'_le = omega arith;
}

worthless : InRange held 10_200 150 200 0
worthless = record {
  collateral = omega arith;
  borrow = omega arith;
  rate_le = omega arith;
  ltv_le = omega arith;
  price_le = omega arith;
  price'_le = omega arith;
}

check_health_v2_lem_example :
    check_health_v2 in_clear held 10_200 150 200 8_500
    ≡ leb (400 * 200) (1_000 * 10_200 * 8_500 / 100_000_000 * 150)
check_health_v2_lem_example =
    check_health_v2_lem in_clear in_clear-IsExact held 10_200 150 200 8_500 (in_range 8_500 refl)
