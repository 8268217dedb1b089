-- ===== src/Program/Changes/Defs.antt =====
-- What each confidential instruction of lib.rs and each callback makes of its record, of
-- programs/veilvault/src/state/private_obligation.rs, and what it queues.
use veil_vault.Base.{
  ◌≢◌, ◌==◌, if◌then◌else◌, Bool, true, false, not, Bool-cases, inl, inr, Option, some, none, [],
  ◌≡◌, refl, ok, or_missing, or_failed, arith, ok_or, LendingError,
}
use veil_vault.Constants.{Pubkey, default_key}
use veil_vault.Runtime.{Runtime, stored}
use veil_vault.Arcium.{Arcium, Encrypted}
use veil_vault.Private.{PrivateObligation, Chain, private_seeds, store_encrypted}
use veil_vault.Private.Setup.{or_new, store_initial}
use veil_vault.Private.DepositCollateral.{add_args, note_collateral_reserve}
use veil_vault.Private.Borrow.{note_borrow_reserve}
use veil_vault.Private.Check.{check_args, flag}
use veil_vault.Program.{Instruction}

-- The record that an instruction is about.
abbrev pub target : {Out : Type 0} → Instruction Out → Option Pubkey
target (Instruction.init_private_obligation a n) = some a.private_obligation
target (Instruction.private_deposit_collateral a n m e) = some a.private_obligation
target (Instruction.private_borrow a n m e) = some a.private_obligation
target (Instruction.private_check_liquidatable a n h) = some a.private_obligation
target (Instruction.execute_private_liquidation a n) = some a.private_obligation
target (Instruction.init_position_v2_callback a out) = some a.private_obligation
target (Instruction.add_collateral_v2_callback a out) = some a.private_obligation
target (Instruction.add_borrow_v2_callback a out) = some a.private_obligation
target (Instruction.check_health_v2_callback a out) = some a.private_obligation
target i = none

-- A reserve of one side is noted where there is none yet.
abbrev pub noted : (reserve new : Pubkey) → Pubkey
noted reserve new = if reserve == default_key then new else reserve

module _ {T Q Out : Type 0} (rt : Runtime T) (ar : Arcium Q Out) where
  -- The record `before` an instruction, the one after it, and Arcium's state before and after.
  abbrev pub Change :
      Instruction Out
      → (before : Option PrivateObligation) (after : PrivateObligation) (q q' : Q) → Type 0
  Change (Instruction.init_private_obligation a n) before after q q' =
      ((or_new before).is_initialized ≡ false)
      × (after ≡ record (or_new before) {
        bump = (rt.find_program_address (private_seeds a.lending_market a.payer)).1;
        owner = a.payer;
        lending_market = a.lending_market;
        collateral_reserve = default_key;
        borrow_reserve = default_key;
        is_initialized = false;
        is_liquidatable = false;
      })
      × (ar.queue_computation
            (record {
              offset = n;
              circuit = "init_position_v2";
              args = [];
              callback_account = a.private_obligation;
            })
            q
          ≡ some q')
  Change (Instruction.private_deposit_collateral a n m e) before after q q' =
      (po : PrivateObligation) × (before ≡ some po)
      × (po.is_initialized ≡ true)
      × (after ≡ record po { collateral_reserve = noted po.collateral_reserve a.reserve })
      × (ar.queue_computation
            (record {
              offset = n;
              circuit = "add_collateral_v2";
              args = add_args e after a.private_obligation;
              callback_account = a.private_obligation;
            })
            q
          ≡ some q')
  Change (Instruction.private_borrow a n m e) before after q q' =
      (po : PrivateObligation) × (before ≡ some po)
      × (po.is_initialized ≡ true)
      × (after ≡ record po { borrow_reserve = noted po.borrow_reserve a.reserve })
      × (ar.queue_computation
            (record {
              offset = n;
              circuit = "add_borrow_v2";
              args = add_args e after a.private_obligation;
              callback_account = a.private_obligation;
            })
            q
          ≡ some q')
  Change (Instruction.private_check_liquidatable a n h) before after q q' =
      (before ≡ some after)
      × (after.is_initialized ≡ true)
      × (ar.queue_computation
            (record {
              offset = n;
              circuit = "check_health_v2";
              args = check_args h after a.private_obligation;
              callback_account = a.private_obligation;
            })
            q
          ≡ some q')
  Change (Instruction.execute_private_liquidation a n) before after q q' =
      (po : PrivateObligation) × (before ≡ some po)
      × (po.is_liquidatable ≡ true)
      × (after ≡ record po { is_liquidatable = false })
      × (q' ≡ q)
  Change (Instruction.init_position_v2_callback a out) before after q q' =
      (po : PrivateObligation) × (enc : Encrypted) × (before ≡ some po)
      × (ar.verify_encrypted a.callback.cluster_account a.callback.computation_account q out
          ≡ some enc)
      × (after
          ≡ record po { enc_state = enc.ciphertexts; nonce = enc.nonce; is_initialized = true })
      × (q' ≡ q)
  Change (Instruction.add_collateral_v2_callback a out) before after q q' =
      (po : PrivateObligation) × (enc : Encrypted) × (before ≡ some po)
      × (ar.verify_encrypted a.callback.cluster_account a.callback.computation_account q out
          ≡ some enc)
      × (after ≡ record po { enc_state = enc.ciphertexts; nonce = enc.nonce })
      × (q' ≡ q)
  Change (Instruction.add_borrow_v2_callback a out) before after q q' =
      (po : PrivateObligation) × (enc : Encrypted) × (before ≡ some po)
      × (ar.verify_encrypted a.callback.cluster_account a.callback.computation_account q out
          ≡ some enc)
      × (after ≡ record po { enc_state = enc.ciphertexts; nonce = enc.nonce })
      × (q' ≡ q)
  Change (Instruction.check_health_v2_callback a out) before after q q' =
      (po : PrivateObligation) × (healthy : Bool) × (before ≡ some po)
      × (ar.verify_bool a.callback.cluster_account a.callback.computation_account q out
          ≡ some healthy)
      × (after ≡ record po { is_liquidatable = not healthy })
      × (q' ≡ q)
  Change i before after q q' = before ≡ some after

  -- An instruction makes its change of the record at one address, and of no other.
  pub record Changes (i : Instruction Out) (k : Pubkey) (c c' : Chain T Q) : Type 0 where
    pub after : PrivateObligation
    pub written : c'.private_obligations k ≡ some after
    pub change : Change i (c.private_obligations k) after c.arcium c'.arcium
    pub others : (j : Pubkey) → j ≢ k → c'.private_obligations j ≡ c.private_obligations j

pub hit : {A : Type 0} (k : Pubkey) (a b : A) → (if k == k then a else b) ≡ a
hit k a b = ground arith

pub stored_other :
    {A : Type 0} (f : Pubkey → Option A) (k : Pubkey) (a : A) (j : Pubkey)
    → j ≢ k
    → stored f k a j ≡ f j
stored_other f k a j ne = ground arith

pub loaded :
    (f : Pubkey → Option PrivateObligation) (k : Pubkey) (po : PrivateObligation)
    → or_missing (f k) ≡ ok po
    → f k ≡ some po
loaded f k po h = ground arith

pub queued : {Q : Type 0} (o : Option Q) (q : Q) → or_failed o ≡ ok q → o ≡ some q
queued o q h = ground arith

pub verified :
    {A : Type 0} (o : Option A) (a : A)
    → ok_or o LendingError.aborted_computation ≡ ok a
    → o ≡ some a
verified o a h = ground arith

pub note_collateral_reserve-noted :
    (k : Pubkey) (po : PrivateObligation)
    → note_collateral_reserve k po
      ≡ record po { collateral_reserve = noted po.collateral_reserve k }
unfolding note_collateral_reserve
note_collateral_reserve-noted k po = elim (Bool-cases (po.collateral_reserve == default_key)) [
  | inl e ↦ rw e refl
  | inr e ↦ rw e refl
]

pub note_borrow_reserve-noted :
    (k : Pubkey) (po : PrivateObligation)
    → note_borrow_reserve k po ≡ record po { borrow_reserve = noted po.borrow_reserve k }
unfolding note_borrow_reserve
note_borrow_reserve-noted k po = elim (Bool-cases (po.borrow_reserve == default_key)) [
  | inl e ↦ rw e refl
  | inr e ↦ rw e refl
]

pub flag-not :
    (b : Bool) (po : PrivateObligation) → flag b po ≡ record po { is_liquidatable = not b }
unfolding flag
flag-not true po = refl
flag-not false po = refl

pub store_encrypted_lem :
    (enc : Encrypted) (po : PrivateObligation)
    → store_encrypted enc po ≡ record po { enc_state = enc.ciphertexts; nonce = enc.nonce }
unfolding store_encrypted
store_encrypted_lem enc po = refl

pub store_initial_lem :
    (enc : Encrypted) (po : PrivateObligation)
    → store_initial enc po
      ≡ record po { enc_state = enc.ciphertexts; nonce = enc.nonce; is_initialized = true }
unfolding store_initial store_encrypted
store_initial_lem enc po = refl
