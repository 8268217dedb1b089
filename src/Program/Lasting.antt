-- ===== src/Program/Lasting.antt =====
-- Facts on the records of confidential positions that are to last from step to step.
use veil_vault.Base.{true, ◌≡◌, ◌∙◌, some, arith, ◌==◌, Bool-cases, inl, inr}
use mathlib.Core.Path.{subst}
use veil_vault.Constants.{Pubkey}
use veil_vault.Runtime.{Runtime, stored}
use veil_vault.Private.{PrivateObligation}
use veil_vault.Program.Records.{Records, IsDerived, PrivateMove}

-- Every record of a confidential position stands at the address of its market and owner.
pub record AllDerived {T : Type 0} (rt : Runtime T) (f : Records) : Type 0 where
  pub derived : (k : Pubkey) (po : PrivateObligation) → f k ≡ some po → IsDerived rt k po

-- The record at an address is initialized, and belongs to this owner and market.
abbrev pub HeldBy : Pubkey → (owner market : Pubkey) → Records → Type 0
HeldBy k owner market f =
    (po : PrivateObligation) × (f k ≡ some po)
    × (po.is_initialized ≡ true)
    × (po.owner ≡ owner)
    × (po.lending_market ≡ market)

module _ {T : Type 0} (rt : Runtime T) where
  stored-AllDerived :
      (f : Records) (k : Pubkey) (po : PrivateObligation)
      → AllDerived rt f
      → IsDerived rt k po
      → AllDerived rt (stored f k po)
  stored-AllDerived f k po all d = record {
    derived = λ j po' h. elim (Bool-cases (j == k)) [
      | inl e ↦
          let key : k ≡ j = ground arith in
          let record_ : po ≡ po' = ground arith in
          subst (λ i. IsDerived rt i po') key (subst (IsDerived rt k) record_ d)
      | inr e ↦ all.derived j po' (ground arith)
    ];
  }

  pub move-AllDerived : {f f' : Records} → PrivateMove rt f f' → AllDerived rt f → AllDerived rt f'
  move-AllDerived PrivateMove.same all = all
  move-AllDerived {f} (PrivateMove.opened k po fresh d) all = stored-AllDerived f k po all d
  move-AllDerived {f} (PrivateMove.updated k po po' h (b, o, m, i)) all =
      let (at, bump) = all.derived k po h in
      stored-AllDerived f k po' all (rw (o, m) (at, b ∙ bump))

  pub move-HeldBy :
      (k owner market : Pubkey) {f f' : Records}
      → PrivateMove rt f f'
      → HeldBy k owner market f
      → HeldBy k owner market f'
  move-HeldBy k owner market PrivateMove.same h = h
  move-HeldBy k owner market (PrivateMove.opened j po' fresh d) (po, h, i, o, m) =
      (po, ground arith, i, o, m)
  move-HeldBy k owner market (PrivateMove.updated j old po' g (b', o', m', i')) (po, h, i, o, m) =
      elim (Bool-cases (k == j)) [
        | inl e ↦
            let record_ : old ≡ po = ground arith in
            (po', ground arith, i' (ground arith), ground arith, ground arith)
        | inr e ↦ (po, ground arith, i, o, m)
      ]
