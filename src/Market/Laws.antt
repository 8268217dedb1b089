-- ===== src/Market/Laws.antt =====
-- What a market's fields keep under its setters.
use veil_vault.Base.{ℕ, ◌≡◌, ◌≤◌, ◌<◌, ◌↔◌, Bool, ok, refl, arith}
use veil_vault.Constants.{max_protocol_fee_bps}
use veil_vault.Market.{
  LendingMarket, set_version, set_emergency_pause, set_protocol_fees, is_paused,
}

-- A setter of the version or the fee succeeds, and writes its field, exactly when its guard holds:
-- the version must grow and the fee stays at or below 10%. The pause flag read back is the one
-- set.
pub setters :
    (m : LendingMarket) (version fee : ℕ) (paused : Bool)
    → ((set_version version m ≡ ok (record m { version = version })) ↔ (m.version < version))
      × ((set_protocol_fees fee m ≡ ok (record m { protocol_fee_bps = fee }))
          ↔ (fee ≤ max_protocol_fee_bps))
      × ((m' : LendingMarket) × (set_emergency_pause paused m ≡ ok m')
          × (is_paused m' ≡ paused)
          × (m'.owner ≡ m.owner))
unfolding set_version set_protocol_fees set_emergency_pause is_paused
setters m version fee paused =
    (ground arith, ground arith, (record m { emergency_pause = paused }, refl, refl, refl))
