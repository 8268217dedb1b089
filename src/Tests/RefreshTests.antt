-- ===== src/Tests/RefreshTests.antt =====
-- A refresh of the position of the obligation's tests, whose debts are to two pools.
use veil_vault.Base.{◌≡◌, refl, Option, none, List, [], ◌∷◌, ok, unwrap_or}
use veil_vault.Constants.{Pubkey}
use veil_vault.Int.{pos}
use veil_vault.Reserve.{Reserve}
use veil_vault.Reserve.Liquidity.{total_supply}
use veil_vault.Obligation.{Obligation, accrue_interest, accrue_slot}
use veil_vault.LastUpdate.{update}
use veil_vault.Runtime.{Clock, stored}
use veil_vault.Instructions.RefreshObligation.{
  refresh, refresh_borrow, refresh_deposit, for_range, listed_fields, read_reserve_fields,
  is_listed, price_borrow, price_deposit,
}
use veil_vault.Instructions.RefreshObligation.Refreshed.{Refreshed, refresh-Refreshed}
use veil_vault.Tests.ReserveTests.{pool, tokens}
use veil_vault.Tests.ObligationTests.{user}

-- The debt to reserve 6 has grown by a tenth.
abbrev grown : Reserve
grown = record pool { liquidity = record tokens { cumulative_borrow_rate_sf = 1_100_000_000_000 } }

abbrev pools : Pubkey → Option Reserve
pools = stored (stored (stored (λ k. none) 5 pool) 6 grown) 7 pool

abbrev listed : List Pubkey
listed = 5 ∷ 6 ∷ 7 ∷ []

abbrev later : Clock
later = record { slot = 250; unix_timestamp = pos 1_000_020 }

abbrev priced : Obligation
priced = unwrap_or (refresh pools listed later user) user

refresh_succeeds : refresh pools listed later user ≡ ok priced
unfolding refresh refresh_borrow refresh_deposit for_range listed_fields read_reserve_fields
    is_listed total_supply accrue_interest accrue_slot price_borrow price_deposit update
refresh_succeeds = refl

refresh-Refreshed_example : Refreshed pools listed later user priced
refresh-Refreshed_example = refresh-Refreshed pools listed later user priced refresh_succeeds
