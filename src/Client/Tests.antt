-- ===== src/Client/Tests.antt =====
-- The client's payment path on the answers of the agent tools' tests.
mod Deposits
mod Keys
use mathlib.Core.List.{Memᴰ}
use mach.Base.{◌≡◌, ◌↔◌, refl, none, [], ◌∷◌}
use mach.Base.Int.{pos}
use mach.Types.X402.{hedera_testnet}
use mach.Mcp.World.{ok}
use mach.Mcp.Payer
use mach.Mcp.Payer.Policy.{IsAffordable}
use mach.Mcp.Tests.{demand, settlement, paid_answer, outside, start}
use mach.Mcp.Client.{post_top_up}
use mach.Js.Text.{text}
use mach.Client.Payment.{paid, choose, take_payment, default_max_tinybars}
use mach.Client.Payment.Agreement.{take_payment-pay_for, choose_iff}

take_payment-pay_for_example : (take_payment paid_answer ≡ paid settlement) ↔ (
    (Payer.pay_for outside hedera_testnet
      (pos 70000)
      (post_top_up (text "https://gpu.one") (text "s1") (text "t1"))
      start).0
    ≡ ok (paid_answer, settlement))
take_payment-pay_for_example =
    take_payment-pay_for outside hedera_testnet (pos 70000)
      (post_top_up (text "https://gpu.one") (text "s1") (text "t1")) start paid_answer settlement
      refl

choose_iff_example :
    Memᴰ demand (choose none none (demand ∷ []))
    ↔ (Memᴰ demand (demand ∷ []) × IsAffordable hedera_testnet default_max_tinybars demand)
choose_iff_example = choose_iff none none (demand ∷ []) demand
