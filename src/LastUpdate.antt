-- ===== src/LastUpdate.antt =====
-- programs/veilvault/src/utils/last_update.rs: when an obligation was last priced.
use veil_vault.Base.{ℕ, Bool, not, ◌==◌}
use veil_vault.Int.{ℤ, pos, ltb_ℤ, saturating_sub_ℤ}
use veil_vault.Constants.{max_age_seconds}

pub record LastUpdate : Type 0 where
  pub slot : ℕ
  pub timestamp : ℤ

abbrev pub last_update_default : LastUpdate
last_update_default = record { slot = 0; timestamp = pos 0 }

unfoldable pub update : ℕ → ℤ → LastUpdate → LastUpdate
update slot timestamp u = record u { slot = slot; timestamp = timestamp }

unfoldable pub is_price_stale : LastUpdate → ℤ → Bool
is_price_stale u curr_time = ltb_ℤ (pos max_age_seconds) (saturating_sub_ℤ curr_time u.timestamp)

unfoldable pub is_slot_stale : LastUpdate → ℕ → Bool
is_slot_stale u curr_slot = not (curr_slot == u.slot)
