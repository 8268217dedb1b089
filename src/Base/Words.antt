-- ===== src/Base/Words.antt =====
-- Rust's checked and saturating operations on unsigned words. A `u64` or `u128` is a native
-- number; the width is an argument where the operation can exceed it.
use Prim.Native.Nat.{ℕ, ◌+◌, ◌-◌, ◌*◌, ◌/◌, ◌%◌, ◌^◌, min}
use mathlib.Core.Option.{Option, none, some}
use veil_vault.Base.Tests.{ltb, leb, ◌==◌, if◌then◌else◌}

abbrev pub checked_add : ℕ → ℕ → ℕ → Option ℕ
checked_add bits a b = if ltb (a + b) (2 ^ bits) then some (a + b) else none

abbrev pub checked_sub : ℕ → ℕ → Option ℕ
checked_sub a b = if leb b a then some (a - b) else none

abbrev pub checked_mul : ℕ → ℕ → ℕ → Option ℕ
checked_mul bits a b = if ltb (a * b) (2 ^ bits) then some (a * b) else none

abbrev pub checked_div : ℕ → ℕ → Option ℕ
checked_div a b = if b == 0 then none else some (a / b)

abbrev pub saturating_add : ℕ → ℕ → ℕ → ℕ
saturating_add bits a b = min (a + b) (2 ^ bits - 1)

abbrev pub saturating_sub : ℕ → ℕ → ℕ
saturating_sub a b = a - b

-- `a as u64`, `a as u16`
abbrev pub cast : ℕ → ℕ → ℕ
cast bits a = a % 2 ^ bits

-- `o.and_then(f)`
infixl 5 ◌and_then◌
abbrev pub ◌and_then◌ {ℓ κ} : {A : Type ℓ} {B : Type κ} → Option A → (A → Option B) → Option B
none and_then f = none
(some a) and_then f = f a
