-- ===== src/Market.antt =====
-- programs/veilvault/src/state/lending_market.rs: the global configuration of a market. The
-- quote currency is 32 opaque bytes, here a number; the account's padding is not modelled.
pub mod Laws
use veil_vault.Base.{ℕ, Bool, false, ltb, leb, LendingError, Result, ok, require, ◌>>=◌, ◌>>◌}
use veil_vault.Constants.{Pubkey, default_key, max_protocol_fee_bps}

pub record LendingMarket : Type 0 where
  pub version : ℕ
  pub bump : ℕ
  pub owner : Pubkey
  pub emergency_pause : Bool
  pub quote_currency : ℕ
  pub protocol_fee_bps : ℕ

abbrev pub market_default : LendingMarket
market_default = record {
  version = 0;
  bump = 0;
  owner = default_key;
  emergency_pause = false;
  quote_currency = 0;
  protocol_fee_bps = 0;
}

pub record InitializeLendingParams : Type 0 where
  pub bump : ℕ
  pub owner : Pubkey
  pub quote_currency : ℕ
  pub protocol_fee_bps : ℕ

unfoldable pub init : InitializeLendingParams → LendingMarket → Result LendingMarket
init p m = ok (record market_default {
  version = 1;
  bump = p.bump;
  owner = p.owner;
  emergency_pause = false;
  quote_currency = p.quote_currency;
  protocol_fee_bps = p.protocol_fee_bps;
})

unfoldable pub set_version : ℕ → LendingMarket → Result LendingMarket
set_version version m = do
  require (ltb m.version version) LendingError.invalid_version
  ok (record m { version = version })

unfoldable pub set_emergency_pause : Bool → LendingMarket → Result LendingMarket
set_emergency_pause emergency_pause m = ok (record m { emergency_pause = emergency_pause })

unfoldable pub set_protocol_fees : ℕ → LendingMarket → Result LendingMarket
set_protocol_fees protocol_fees m = do
  require (leb protocol_fees max_protocol_fee_bps) LendingError.invalid_fee
  ok (record m { protocol_fee_bps = protocol_fees })

unfoldable pub is_paused : LendingMarket → Bool
is_paused m = m.emergency_pause
