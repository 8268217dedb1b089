-- ===== src/Base/Outcomes.antt =====
-- What a result ensures if it is a success: rules that follow the shape of a `do` block.
use mathlib.Core.Path.{◌≡◌, subst}
use veil_vault.Base.Errors.{Result, ok, ◌>>=◌, >>=-elim}

pub record Ensures {A : Type 0} (P : A → Type 0) (m : Result A) : Type 0 where
  pub holds : (a : A) → m ≡ ok a → P a

module _ {A : Type 0} {P : A → Type 0} where
  pub returns : {a : A} → P a → Ensures P (ok a)
  returns {a} p = record { holds = λ b e. let same : a ≡ b = cc in subst P same p }

  pub step :
      {B : Type 0} (m : Result B) {f : B → Result A}
      → ((b : B) → m ≡ ok b → Ensures P (f b))
      → Ensures P (m >>= f)
  step m next = record { holds = λ a e. >>=-elim m _ e λ b h k. (next b h).holds a k }

  pub follows : {Q : A → Type 0} {m : Result A} → Ensures P m → ((a : A) → P a → Q a) → Ensures Q m
  follows e next = record { holds = λ a h. next a (e.holds a h) }
