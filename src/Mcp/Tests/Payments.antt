-- ===== src/Mcp/Tests/Payments.antt =====
-- Requests for payments in the small world.
use mach.Base.{◌≡◌, inr, refl, true, false, none, some, ◌≤◌}
use mach.Base.Int.{pos, ◌+ℤ◌, ltb_ℤ}
use mach.Js.Text.{text, ◌===◌, trim, drop_end_slash}
use mach.Js.BigInt.{parse}
use mach.Mcp.World.{World, HttpRequest, held, ok, err, daily_cap}
use mach.Mcp.Config.{McpConfig}
use mach.Mcp.Payer.{pay_for, pay, read_settlement}
use mach.Mcp.Payer.Policy.{pay_for-settled}
use mach.Mcp.Receipt.{record_spend, read_spend}
use mach.Mcp.Limits.{spent_today, check_daily_cap, needs_confirmation}
use mach.Mcp.Limits.Daily.{spent_today-record_spend}
use mach.Mcp.Client.{quote_session, fetch, decode_challenge}
use mach.Mcp.Tools.{
  quote, quote_open_session, create_ssh_identity, request_payment, confirm_payment,
}
use mach.Mcp.Tools.Careful.{Signs}
use mach.Mcp.Tools.Spending.{Affordable, tools-Affordable}
use mach.Mcp.Tools.Confirm.{FitsDay, IsHeld, request-IsHeld, request_over_cap}
use mach.Mcp.Tests.{settlement, paid_answer, outside, outside-RespectsPolicy, config, action, start}

tools-Affordable_example :
    Signs
      (Affordable outside outside-RespectsPolicy config)
      start
      (request_payment outside config action start).1
    × Signs
        (Affordable outside outside-RespectsPolicy config)
        start
        (confirm_payment outside config (text "c1") start).1
tools-Affordable_example =
    tools-Affordable outside outside-RespectsPolicy config action (text "c1") start

-- The world after the quote: a key was made, and the node asked.
abbrev asked : World
asked = record start { now = 1010; calls = 2 }

quoted : quote outside config action start ≡ (ok (pos 60000), asked)
unfolding quote quote_open_session create_ssh_identity parse text quote_session fetch
    decode_challenge drop_end_slash trim ◌===◌
quoted = refl

fits : ltb_ℤ (pos 100000) (pos 0 +ℤ pos 60000) ≡ false
unfolding ◌+ℤ◌
fits = refl

within : FitsDay outside config asked (pos 60000)
unfolding spent_today read_spend
within = inr (pos 100000, pos 0, refl, refl, fits)

request-IsHeld_example :
    IsHeld outside config action
      (pos 60000)
      1010
      start
      (request_payment outside config action start)
request-IsHeld_example =
    request-IsHeld outside config action (pos 60000) start asked quoted (pos 50000) within refl refl

-- A lower cap on the day, and no threshold.
abbrev strict : McpConfig
strict = record config { max_tinybars_per_day = some (pos 59999) }

abbrev lax : McpConfig
lax = record config { confirm_above_tinybars = none }

quoted_strict : quote outside strict action start ≡ (ok (pos 60000), asked)
unfolding quote quote_open_session create_ssh_identity parse text quote_session fetch
    decode_challenge drop_end_slash trim ◌===◌
quoted_strict = refl

quoted_lax : quote outside lax action start ≡ (ok (pos 60000), asked)
unfolding quote quote_open_session create_ssh_identity parse text quote_session fetch
    decode_challenge drop_end_slash trim ◌===◌
quoted_lax = refl

within_lax : check_daily_cap lax (pos 60000) asked ≡ (ok tt, asked)
unfolding check_daily_cap spent_today read_spend ◌+ℤ◌
within_lax = refl

below : needs_confirmation lax (pos 60000) ≡ false
unfolding needs_confirmation
below = refl

nothing_spent : spent_today asked ≡ ok (pos 0)
unfolding spent_today read_spend
nothing_spent = refl

request_over_cap_example :
    ((request_payment outside strict action start).0
      ≡ err (daily_cap (pos 0) (pos 60000) (pos 59999)))
    × ((request_payment outside strict action start).1.paid ≡ start.paid)
unfolding ◌+ℤ◌
request_over_cap_example =
    request_over_cap outside strict action (pos 60000) start asked quoted_strict (pos 59999) (pos 0)
      refl nothing_spent refl

paid_amount : parse (text "60000") ≡ some (pos 60000)
unfolding parse text trim
paid_amount = refl

spent_today-record_spend_example :
    spent_today
      (record_spend settlement (text "https://gpu.one") (some (text "s1")) (text "60000") asked).1
    ≡ ok (pos 0 +ℤ pos 60000)
spent_today-record_spend_example =
    spent_today-record_spend asked settlement (text "https://gpu.one") (some (text "s1"))
      (text "60000") (pos 0) (pos 60000) refl nothing_spent paid_amount

abbrev request : HttpRequest
request = record {
  method = text "POST";
  url = text "https://gpu.one/v1/sessions";
  authorization = none;
  spec = none;
}

answered :
    (pay_for outside config.network config.max_tinybars_per_payment request start).0
    ≡ ok (paid_answer, settlement)
unfolding pay_for pay
answered = refl

pay_for-settled_example :
    (200 ≤ paid_answer.status)
    × (paid_answer.status ≤ 299)
    × (read_settlement paid_answer ≡ held settlement)
    × (settlement.success ≡ true)
pay_for-settled_example =
    pay_for-settled outside config.network config.max_tinybars_per_payment request start paid_answer
      settlement answered
