-- ===== src/Program/Sides.antt =====
-- The two reserves of a liquidation under the invariant of Program/Sound; they may be one account.
use veil_vault.Base.{ℕ, ◌≡◌, Option, ok, or_missing}
use veil_vault.Constants.{Pubkey}
use veil_vault.Reserve
use veil_vault.Reserve.{Reserve}
use veil_vault.Obligation.{Obligation}
use veil_vault.Runtime.{stored}
use veil_vault.Instructions.Liquidate.{ready_reserve}
use veil_vault.Program.Sound.{Sound, rewrite-Sound}
use veil_vault.Program.Pools.{repay-config, ready_reserve-config}

-- Both reserves brought up to date, and the repayment in the first.
pub sides-Sound :
    {reserves : Pubkey → Option Reserve} {obligations : Pubkey → Option Obligation}
    {rr rr' wr1 wr' rr2 rr'' : Reserve} (slot : ℕ) (rk wk : Pubkey) (amount : ℕ)
    → Sound reserves obligations
    → or_missing (reserves rk) ≡ ok rr
    → ready_reserve slot rr ≡ ok rr'
    → or_missing (stored reserves rk rr' wk) ≡ ok wr1
    → ready_reserve slot wr1 ≡ ok wr'
    → or_missing (stored (stored reserves rk rr') wk wr' rk) ≡ ok rr2
    → Reserve.repay amount rr2 ≡ ok rr''
    → Sound (stored (stored (stored reserves rk rr') wk wr') rk rr'') obligations
sides-Sound {rr} {rr'} {wr1} {wr'} {rr2} {rr''} slot rk wk amount s hr h hw k hr2 p =
    let s1 = rewrite-Sound s rk rr rr' hr ((ready_reserve-config slot rr).holds rr' h) in
    let s2 = rewrite-Sound s1 wk wr1 wr' hw ((ready_reserve-config slot wr1).holds wr' k) in
    rewrite-Sound s2 rk rr2 rr'' hr2 ((repay-config amount rr2).holds rr'' p)
