-- ===== src/Program/Sound.antt =====
-- The invariant of the accounts that the program owns, and the writes that keep it.
use mathlib.Core.Path.{subst}
use veil_vault.Base.{
  ◌≡◌, ◌≢◌, sym, Option, none, some, ok, arith, Bool-cases, inl, inr, or_missing, ◌==◌,
}
use veil_vault.Constants.{Pubkey}
use veil_vault.Reserve.{Reserve}
use veil_vault.Reserve.Config.Init
use veil_vault.Obligation.{Obligation}
use veil_vault.Obligation.Valid
use veil_vault.Runtime.{World, stored}

-- Every obligation and every reserve's configuration is valid, and no reserve is at the default
-- key, which marks an empty slot of an obligation.
pub record Sound (reserves : Pubkey → Option Reserve) (obligations : Pubkey → Option Obligation)
    : Type 0 where
  pub no_default : reserves 0 ≡ none
  pub configs : (k : Pubkey) (r : Reserve) → reserves k ≡ some r → Init.IsValid r.config
  pub positions : (k : Pubkey) (o : Obligation) → obligations k ≡ some o → Valid.IsValid o

abbrev pub IsSound : {T : Type 0} → World T → Type 0
IsSound w = Sound w.reserves w.obligations

stored_cases :
    {A : Type 0} (P : A → Type 0) (f : Pubkey → Option A) (k : Pubkey) (a : A)
    → ((j : Pubkey) (b : A) → f j ≡ some b → P b)
    → P a
    → (j : Pubkey) (b : A) → stored f k a j ≡ some b
    → P b
stored_cases P f k a old new j b h = elim (Bool-cases (j == k)) [
  | inl e ↦ let same : a ≡ b = ground arith in subst P same new
  | inr e ↦ old j b (ground arith)
]

module _ {reserves : Pubkey → Option Reserve} {obligations : Pubkey → Option Obligation}
    (s : Sound reserves obligations) where
  pub loaded-ne : {k : Pubkey} {r : Reserve} → or_missing (reserves k) ≡ ok r → k ≢ 0
  loaded-ne h e = ground (arith, s.no_default)

  pub loaded-config :
      (k : Pubkey) {r : Reserve} → or_missing (reserves k) ≡ ok r → Init.IsValid r.config
  loaded-config k {r} h = s.configs k r (ground arith)

  pub loaded-position :
      (k : Pubkey) {o : Obligation} → or_missing (obligations k) ≡ ok o → Valid.IsValid o
  loaded-position k {o} h = s.positions k o (ground arith)

  pub put_reserve-Sound :
      (k : Pubkey) (r : Reserve)
      → k ≢ 0
      → Init.IsValid r.config
      → Sound (stored reserves k r) obligations
  put_reserve-Sound k r ne v = record {
    no_default = ground (arith, s.no_default);
    configs = stored_cases (λ x. Init.IsValid x.config) reserves k r s.configs v;
    positions = s.positions;
  }

  pub put_obligation-Sound :
      (k : Pubkey) (o : Obligation) → Valid.IsValid o → Sound reserves (stored obligations k o)
  put_obligation-Sound k o v = record {
    no_default = s.no_default;
    configs = s.configs;
    positions = stored_cases Valid.IsValid obligations k o s.positions v;
  }

  -- A loaded reserve is written back with its configuration.
  pub rewrite-Sound :
      (k : Pubkey) (r r' : Reserve)
      → or_missing (reserves k) ≡ ok r
      → r'.config ≡ r.config
      → Sound (stored reserves k r') obligations
  rewrite-Sound k r r' h e =
      put_reserve-Sound k r' (loaded-ne h) (subst Init.IsValid (sym e) (loaded-config k h))
