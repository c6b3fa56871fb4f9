-- ===== src/Mcp/Payer/Policy.antt =====
-- What the policy lets through, and what a successful paid fetch means.
use mach.Base.{◌≤◌, ◌≡◌, ◌↔◌, true, some, arith, Option-cases, inl, inr}
use mach.Base.Int.{ℤ, ◌≤ℤ◌}
use mach.Js.Text.{Text}
use mach.Js.Text.Laws.{eq_iff}
use mach.Js.BigInt.{parse}
use mach.Types.X402.{hbar_asset_id}
use mach.Mcp.World.{Requirements, Settlement, held, Response, HttpRequest, Outside, World, ok}
use mach.Mcp.Payer.{acceptable, read_settlement, pay, pay_for}

-- HBAR on the expected network, an integer amount, at most the cap.
abbrev pub IsAffordable : Text → ℤ → Requirements → Type 0
IsAffordable network max option =
    (option.network ≡ network)
    × (option.asset ≡ hbar_asset_id)
    × ((amount : ℤ) × (parse option.amount ≡ some amount) × (amount ≤ℤ max))

acceptable_sound :
    (network : Text) (max : ℤ) (option : Requirements)
    → acceptable network max option ≡ true
    → IsAffordable network max option
unfolding acceptable
acceptable_sound network max option h = elim (Option-cases (parse option.amount)) [
  | inl e ↦ absurd (ground (arith, e))
  | inr (amount, e) ↦ (
    ground (arith, eq_iff option.network network),
    ground (arith, eq_iff option.asset hbar_asset_id),
    (amount, e, ground (arith, e)),
  )
]

acceptable_complete :
    (network : Text) (max : ℤ) (option : Requirements)
    → IsAffordable network max option
    → acceptable network max option ≡ true
unfolding acceptable
acceptable_complete network max option h =
    ground (arith, eq_iff option.network network, eq_iff option.asset hbar_asset_id)

-- The spending policy accepts exactly the options in HBAR, on the network, whose amount is an
-- integer of at most the cap.
pub acceptable_iff :
    (network : Text) (max : ℤ) (option : Requirements)
    → (acceptable network max option ≡ true) ↔ IsAffordable network max option
acceptable_iff network max option =
    (acceptable_sound network max option, acceptable_complete network max option)

-- The paid fetch returns only a 2xx response that carries a settlement which went through.
pub pay_for-settled :
    (o : Outside) (network : Text) (max : ℤ) (request : HttpRequest) (w : World) (r : Response)
    (s : Settlement)
    → (pay_for o network max request w).0 ≡ ok (r, s)
    → (200 ≤ r.status) × (r.status ≤ 299) × (read_settlement r ≡ held s) × (s.success ≡ true)
unfolding pay_for pay
pay_for-settled o network max request w r s h = ground arith
