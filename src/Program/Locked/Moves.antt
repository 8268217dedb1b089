-- ===== src/Program/Locked/Moves.antt =====
-- What moves of tokens, and of cTokens in and out of a position, do to what positions have locked.
use mathlib.Core.Path.{ap, subst}
use veil_vault.Base.{
  ℕ, ◌+◌, ◌-◌, ◌≤◌, ◌≡◌, ◌≢◌, ◌∙◌, sym, Option, none, some, ok, arith, or_missing, ◌==◌, Bool-cases,
  inl, inr,
}
use veil_vault.Constants.{Pubkey}
use veil_vault.Reserve.{Reserve}
use veil_vault.Obligation.{Obligation}
use veil_vault.Obligation.Valid.{deposited, Updated}
use veil_vault.Runtime.{Runtime, vault_of, stored}
use veil_vault.Tokens.{IsWallet, AddressLaws, locker_of}
use veil_vault.Tokens.Effects.{Ledger, Moved, Minted, Burnt}
use veil_vault.Program.Custody.{
  Kept, wallet-ne, guard_on, unspent, arrived, spent, issue_beside, burnt_beside,
}
use veil_vault.Program.Locked.Sums.{total, total_grown, total_shrunk, total_same}
use veil_vault.Program.Locked.Defs.{AllSecured, Secured, Holds, locked_at, locked_of, stored-ne}

module _ {T : Type 0} {rt : Runtime T} {l : Ledger T} {t t' : T} where
  module _ {from to authority : Pubkey} {n : ℕ} (m : Moved l from to authority n t t') where
    spares-Holds :
        ((k : Pubkey) → Kept rt l t (locker_of rt k) → from ≢ locker_of rt k) → Holds rt l t t'
    spares-Holds ne = record {
      holds = λ k b. (unspent m (locker_of rt k) (ne k b), guard_on b m.same_owners);
    }

    pub wallet-Holds : IsWallet rt authority → Holds rt l t t'
    wallet-Holds w = spares-Holds λ k b. wallet-ne b authority from w m.authorised

    pub vault-Holds : AddressLaws rt → (r : Pubkey) → from ≡ vault_of rt r → Holds rt l t t'
    vault-Holds laws r e = spares-Holds λ k b same. laws.locker-ne k r (sym same ∙ e)

  pub mint-Holds : {mint to : Pubkey} {n : ℕ} → Minted l mint to n t t' → Holds rt l t t'
  mint-Holds m = record {
    holds = λ k b. (issue_beside (locker_of rt k) m, guard_on b m.same_owners);
  }

  pub burn-Holds :
      {mint from authority : Pubkey} {n : ℕ}
      → Burnt l mint from authority n t t'
      → IsWallet rt authority
      → Holds rt l t t'
  burn-Holds {from} {authority} m w = record {
    holds = λ k b. (
      burnt_beside (locker_of rt k) m (wallet-ne b authority from w m.authorised),
      guard_on b m.same_owners,
    );
  }

  pub Holds-trans : {t2 : T} → Holds rt l t t' → Holds rt l t' t2 → Holds rt l t t2
  Holds-trans a b = record {
    holds = λ k kept.
        let (more, kept') = a.holds k kept in
        let (more', kept2) = b.holds k kept' in (omega arith, kept2);
  }

pub same-Holds : {T : Type 0} (rt : Runtime T) (l : Ledger T) (t : T) → Holds rt l t t
same-Holds rt l t = record { holds = λ k b. (omega arith, b) }

-- The obligation at an address is replaced.
module _ (obligations : Pubkey → Option Obligation) (at : Pubkey) (o o' : Obligation)
    (h : or_missing (obligations at) ≡ ok o) where
  locked_before : (k : Pubkey) → locked_at obligations k at ≡ deposited o k
  locked_before k = let found : obligations at ≡ some o = ground arith in ap (locked_of k) found

  locked_now : (k : Pubkey) → locked_at (stored obligations at o') k at ≡ deposited o' k
  locked_now k =
      let found : stored obligations at o' at ≡ some o' = ground arith in ap (locked_of k) found

  locked_elsewhere :
      (k j : Pubkey) → j ≢ at → locked_at (stored obligations at o') k j ≡ locked_at obligations k j
  locked_elsewhere k j ne =
      let found : stored obligations at o' j ≡ obligations j = ground arith in
      ap (locked_of k) found

  -- At another reserve than the one that an update is about.
  locked_beside :
      {r n : ℕ}
      → Updated (deposited o) (deposited o') r n
      → (k : Pubkey) → k ≢ 0
      → k ≢ r
      → (j : Pubkey) → locked_at (stored obligations at o') k j ≡ locked_at obligations k j
  locked_beside (_, others) k ne other j = elim (Bool-cases (j == at)) [
    | inl e ↦
        let same : at ≡ j = ground arith in
        subst (λ x. locked_at (stored obligations at o') k x ≡ locked_at obligations k x) same
          (locked_now k ∙ others k ne other ∙ sym (locked_before k))
    | inr e ↦ locked_elsewhere k j (ground arith)
  ]

module _ {T : Type 0} {rt : Runtime T} {l : Ledger T} {t t' : T}
    {reserves : Pubkey → Option Reserve} {obligations : Pubkey → Option Obligation}
    (all : AllSecured rt l t reserves obligations) (no_default : reserves 0 ≡ none)
    (addresses : AddressLaws rt) (r at : Pubkey) {reserve : Reserve} {o : Obligation}
    (o' : Obligation) (hr : or_missing (reserves r) ≡ ok reserve)
    (h : or_missing (obligations at) ≡ ok o) {from to authority : Pubkey} {n : ℕ}
    (m : Moved l from to authority n t t') where
  -- One reserve's sum changes, and its account with it; the others are spared.
  changed-AllSecured :
      {x : ℕ}
      → Updated (deposited o) (deposited o') r x
      → (((k : ℕ)
          → total (locked_at (stored obligations at o') r) k ≤ l.balance t' (locker_of rt r)))
      → ((k : Pubkey) → Kept rt l t (locker_of rt k) → k ≢ r → from ≢ locker_of rt k)
      → AllSecured rt l t' reserves (stored obligations at o')
  changed-AllSecured up enough spares = record {
    secured = λ k b e. elim (Bool-cases (k == r)) [
      | inl same ↦
          let key : r ≡ k = ground arith in
          subst (Secured rt l t' (stored obligations at o')) key (record {
            enough = enough;
            guard = guard_on ((all.secured r reserve (ground arith)).guard) m.same_owners;
          })
      | inr other ↦
          let old = all.secured k b e in
          let ne = stored-ne all no_default k b e in
          let apart : k ≢ r = ground arith in
          record {
            enough = λ j.
                let sums =
                  total_same (locked_at obligations k) (locked_at (stored obligations at o') k)
                    (locked_beside obligations at o o' h up k ne apart) j in
                let before = old.enough j in
                let more = unspent m (locker_of rt k) (spares k old.guard apart) in omega arith;
            guard = guard_on old.guard m.same_owners;
          }
    ];
    unopened = λ k ne e j.
        let apart : k ≢ r = λ same. ground arith in
        locked_beside obligations at o o' h up k ne apart j ∙ all.unopened k ne e j;
  }

  pub locked-AllSecured :
      IsWallet rt authority
      → to ≡ locker_of rt r
      → Updated (deposited o) (deposited o') r (deposited o r + n)
      → AllSecured rt l t' reserves (stored obligations at o')
  locked-AllSecured w e up =
      let old = all.secured r reserve (ground arith) in
      let more = arrived m (locker_of rt r) (wallet-ne old.guard authority from w m.authorised) e in
      let now = locked_now obligations at o o' h r ∙ up.0 in
      let before = locked_before obligations at o o' h r in
      changed-AllSecured up
        (total_grown (locked_at obligations r) (locked_at (stored obligations at o') r) at
          (locked_elsewhere obligations at o o' h r) n (l.balance t (locker_of rt r))
          (l.balance t' (locker_of rt r)) (omega arith) (omega arith) old.enough)
        λ k b apart. wallet-ne b authority from w m.authorised

  pub released-AllSecured :
      from ≡ locker_of rt r
      → n ≤ deposited o r
      → Updated (deposited o) (deposited o') r (deposited o r - n)
      → AllSecured rt l t' reserves (stored obligations at o')
  released-AllSecured e le up =
      let old = all.secured r reserve (ground arith) in
      let less = spent m (locker_of rt r) e in
      let now = locked_now obligations at o o' h r ∙ up.0 in
      let before = locked_before obligations at o o' h r in
      changed-AllSecured up
        (total_shrunk (locked_at obligations r) (locked_at (stored obligations at o') r) at
          (locked_elsewhere obligations at o o' h r) n (l.balance t (locker_of rt r))
          (l.balance t' (locker_of rt r)) (omega arith) (omega arith) old.enough)
        λ k b apart same. apart (addresses.lockers_differ k r (sym same ∙ e))
