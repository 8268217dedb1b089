-- ===== src/Program/Backing/Worlds.antt =====
-- The backing of every stored reserve, and the writes of one reserve.
use mathlib.Core.Path.{subst}
use veil_vault.Base.{ℕ, ◌≡◌, ◌≢◌, Option, some, ok, arith, Bool-cases, inl, inr, or_missing, ◌==◌}
use veil_vault.Constants.{Pubkey}
use veil_vault.Reserve.{Reserve}
use veil_vault.Runtime.{Runtime, World, stored}
use veil_vault.Tokens.Effects.{Ledger}
use veil_vault.Program.Backing.Defs.{Backed}
use veil_vault.Program.Backing.Counts.{SameBooks, available, minted}

module _ {T : Type 0} (rt : Runtime T) (l : Ledger T) where
  abbrev pub ReserveBacked : T → Pubkey → Reserve → Type 0
  ReserveBacked t k r = Backed rt l t k (available r) (minted r)

  pub record AllBacked (t : T) (reserves : Pubkey → Option Reserve) : Type 0 where
    pub backed : (k : Pubkey) (r : Reserve) → reserves k ≡ some r → ReserveBacked t k r

  abbrev pub IsBacked : World T → Type 0
  IsBacked w = AllBacked w.tokens w.reserves

module _ {T : Type 0} {rt : Runtime T} {l : Ledger T} {t : T} {reserves : Pubkey → Option Reserve}
    (all : AllBacked rt l t reserves) where
  pub loaded-Backed :
      (k : Pubkey) {r : Reserve} → or_missing (reserves k) ≡ ok r → ReserveBacked rt l t k r
  loaded-Backed k {r} h = all.backed k r (ground arith)

  -- The tokens move, and one reserve is written.
  pub written-AllBacked :
      {t' : T} (k : Pubkey) (r' : Reserve)
      → ReserveBacked rt l t' k r'
      → ((j : Pubkey) (r : Reserve) → j ≢ k → ReserveBacked rt l t j r → ReserveBacked rt l t' j r)
      → AllBacked rt l t' (stored reserves k r')
  written-AllBacked {t'} k r' new others = record {
    backed = λ j b h. elim (Bool-cases (j == k)) [
      | inl e ↦
          let key : k ≡ j = ground arith in
          let same : r' ≡ b = ground arith in
          subst (ReserveBacked rt l t' j) same (subst (λ x. ReserveBacked rt l t' x r') key new)
      | inr e ↦ others j b (ground arith) (all.backed j b (ground arith))
    ];
  }

  -- The tokens move, and no reserve is written.
  pub moved-AllBacked :
      {t' : T}
      → ((j : Pubkey) (r : Reserve) → ReserveBacked rt l t j r → ReserveBacked rt l t' j r)
      → AllBacked rt l t' reserves
  moved-AllBacked others = record { backed = λ j b h. others j b (all.backed j b h) }

  -- A loaded reserve is written back with the same books.
  pub rewritten-AllBacked :
      (k : Pubkey) {r r' : Reserve}
      → or_missing (reserves k) ≡ ok r
      → SameBooks r r'
      → AllBacked rt l t (stored reserves k r')
  rewritten-AllBacked k {r} {r'} h same =
      written-AllBacked k r'
        (let tokens = same.tokens in
          let ctokens = same.ctokens in
          let a : available r ≡ available r' = ground arith in
          let s : minted r ≡ minted r' = ground arith in
          subst (λ x. Backed rt l t k x (minted r')) a
            (subst (Backed rt l t k (available r)) s (loaded-Backed k h)))
        λ j b ne old. old

pub recount :
    {T : Type 0} {rt : Runtime T} {l : Ledger T} {t : T} {k : Pubkey} {a a' s s' : ℕ}
    → Backed rt l t k a s
    → a ≡ a'
    → s ≡ s'
    → Backed rt l t k a' s'
recount {rt} {l} {t} {k} {a} {s'} b e f =
    subst (λ x. Backed rt l t k x s') e (subst (Backed rt l t k a) f b)
