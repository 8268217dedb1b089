-- ===== src/Base/Division.antt =====
-- Quotients and products, where linear arithmetic alone does not reach.
use Prim.Native.Nat.{ℕ, ◌*◌, ◌/◌, ◌≤◌}
use mathlib.Core.Logic.{◌≢◌}
use native.Mathlib.Omega.{arith}
use native.Mathlib.Nat.{mul-le-mul_right}

pub le_of_mul_le : (a b m : ℕ) → m ≢ 0 → a * m ≤ b * m → a ≤ b
le_of_mul_le a b m ne h = grind arith

pub le-mul-div : (d c index : ℕ) → c ≢ 0 → c ≤ index → d ≤ d * index / c
le-mul-div d c index ne h = grind arith

pub le-div_of_mul_le : (y c n : ℕ) → c ≢ 0 → y * c ≤ n → y ≤ n / c
le-div_of_mul_le y c n ne h = grind arith

-- Scaling by two ratios in turn, rounding down each time, is at most scaling by their product.
pub mul-div-mul-div :
    (d c index later : ℕ) → c ≢ 0 → index ≢ 0 → d * index / c * later / index ≤ d * later / c
mul-div-mul-div d c index later ne ne' =
    let x = d * index / c in
    let y = x * later / index in
    let once : x * c ≤ d * index = omega arith in
    let twice : y * index ≤ x * later = omega arith in
    let once' : x * c * later ≤ d * index * later = mul-le-mul_right later once in
    let twice' : y * index * c ≤ x * later * c = mul-le-mul_right c twice in
    le-div_of_mul_le y c (d * later) ne (le_of_mul_le (y * c) (d * later) index ne' (omega arith))
