-- ===== src/Constants.antt =====
-- programs/veilvault/src/constants.rs, and the key that `Pubkey::default()` is: all zeros.
use veil_vault.Base.{ℕ, ◌*◌}

abbrev pub Pubkey : Type 0
Pubkey = ℕ

abbrev pub default_key : Pubkey
default_key = 0

abbrev pub bps_scaler : ℕ
bps_scaler = 10_000

abbrev pub percent_scaler : ℕ
percent_scaler = 100

abbrev pub max_protocol_fee_bps : ℕ
max_protocol_fee_bps = 1_000

abbrev pub slots_per_second : ℕ
slots_per_second = 2

abbrev pub slots_per_year : ℕ
slots_per_year = 365 * (24 * (60 * (60 * slots_per_second)))

abbrev pub rate_scale : ℕ
rate_scale = 1_000_000_000_000

abbrev pub max_liquidation_threshold_pct : ℕ
max_liquidation_threshold_pct = 100

abbrev pub max_utilization_bps : ℕ
max_utilization_bps = 10_000

abbrev pub max_age_seconds : ℕ
max_age_seconds = 60

abbrev pub max_deposits_count : ℕ
max_deposits_count = 8

abbrev pub max_borrow_count : ℕ
max_borrow_count = 8

abbrev pub max_liquidation_close_factor_pct : ℕ
max_liquidation_close_factor_pct = 50
