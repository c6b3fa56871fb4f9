-- ===== src/Mcp/Tests/Confirmations.antt =====
-- Confirmation ids in the small world.
use mach.Base.{◌≡◌, refl, some, arith}
use mach.Base.Int.{pos}
use mach.Js.Text.{text, ◌===◌}
use mach.Mcp.World.{err, no_hold, World}
use mach.Mcp.Limits.{find_hold}
use mach.Mcp.Limits.Holds.{HasExpired}
use mach.Mcp.Tools.{confirm_payment}
use mach.Mcp.Tools.Confirm.{confirm_once, confirm_expired, confirm_ignores_daily_cap}
use mach.Mcp.Tests.{outside, config, waiting, holding}

confirm_once_example :
    let w' = (confirm_payment outside config (text "c1") holding).1 in
    ((confirm_payment outside config (text "c1") w').0 ≡ err (no_hold (text "c1")))
    × ((confirm_payment outside config (text "c1") w').1.paid ≡ w'.paid)
confirm_once_example = confirm_once outside config (text "c1") holding

abbrev late : World
late = record holding { now = 300001 }

late-HasExpired : HasExpired (text "c1") late
late-HasExpired = (λ same. omega arith, tt)

confirm_expired_example :
    ((confirm_payment outside config (text "c1") late).0 ≡ err (no_hold (text "c1")))
    × ((confirm_payment outside config (text "c1") late).1.paid ≡ late.paid)
confirm_expired_example = confirm_expired outside config (text "c1") late late-HasExpired

stored : find_hold (text "c1") holding.holds ≡ some waiting
unfolding find_hold text ◌===◌
stored = refl

confirm_ignores_daily_cap_example :
    confirm_payment outside
      (record config { max_tinybars_per_day = some (pos 0) })
      (text "c1")
      holding
    ≡ confirm_payment outside config (text "c1") holding
confirm_ignores_daily_cap_example =
    confirm_ignores_daily_cap outside config (some (pos 0)) (text "c1") holding
