-- ===== src/Instructions/RefreshReserve.antt =====
-- programs/veilvault/src/instructions/refresh_reserve.rs: interest, then a new oracle price. The
-- oracle's account comes as its key with the message that the oracle SDK reads from it.
use veil_vault.Base.{Option, LendingError, Result, ok, require, or_missing, ◌>>=◌, ◌>>◌, ◌==◌}
use veil_vault.Constants.{Pubkey, max_age_seconds}
use veil_vault.Reserve.{Reserve, accrue_interest}
use veil_vault.Prices.{PriceUpdate, get_pyth_price}
use veil_vault.Runtime.{Clock, Runtime, World, put_reserve, check_market_seeds}

pub record RefreshReserveAccounts : Type 0 where
  pub lending_market : Pubkey
  pub reserve : Pubkey
  pub pyth_price_update : Pubkey

-- The handler on the loaded reserve.
unfoldable pub refresh : Pubkey → Option PriceUpdate → Clock → Reserve → Result Reserve
refresh oracle update clock r = do
  require (oracle == r.config.pyth_oracle) LendingError.invalid_config
  accrued ← accrue_interest clock.slot r
  (price_sf, publish_time) ← get_pyth_price update max_age_seconds clock.unix_timestamp
  ok (record accrued {
    liquidity = record (accrued.liquidity) {
      market_price_sf = price_sf;
      price_last_updated_ts = publish_time;
    };
  })

module _ {T : Type 0} (rt : Runtime T) where
  unfoldable pub refresh_reserve :
      RefreshReserveAccounts → Option PriceUpdate → Clock → World T → Result (World T)
  refresh_reserve a update clock w = do
    m ← or_missing (w.markets a.lending_market)
    r ← or_missing (w.reserves a.reserve)
    check_market_seeds rt m.owner m a.lending_market
    require (r.lending_market == a.lending_market) LendingError.invalid_config
    r' ← refresh a.pyth_price_update update clock r
    ok (put_reserve a.reserve r' w)
