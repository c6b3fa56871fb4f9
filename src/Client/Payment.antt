-- ===== src/Client/Payment.antt =====
-- client/src/payment.ts: the spending policy that the command line and the website share, and what
-- they make of a paid response. A failure is told by its kind and the status.
pub mod Agreement
use mach.Base.{
  Bool, true, false, not, ◌&&◌, Option, none, some, List, [], ◌++◌, keep, leb, if◌then◌else◌, ℕ,
}
use mach.Base.Int.{ℤ, leb_ℤ}
use mach.Js.Text.{Text, text, ◌===◌, trim}
use mach.Js.BigInt.{parse}
use mach.Types.X402.{hedera_testnet, hbar_asset_id}
use mach.Mcp.World.{Requirements, Settlement, Header, absent, garbled, held, Response}

unfoldable pub acceptable : Requirements → Text → ℤ → Bool
acceptable option network max_tinybars =
    if not (option.network === network)
    then false
    else if not (option.asset === hbar_asset_id)
    then false
    else elim (parse option.amount) [ none ↦ false | some amount ↦ leb_ℤ amount max_tinybars ]

abbrev pub default_max_tinybars : ℤ
default_max_tinybars = ℤ.pos 10000000

abbrev pub or_default {ℓ} : {A : Type ℓ} → Option A → A → A
or_default none d = d
or_default (some a) d = a

-- The policy that `payerFromSigner` registers, with its defaults: what it leaves of the options.
unfoldable pub choose : Option Text → Option ℤ → List Requirements → List Requirements
choose network max_tinybars requirements =
    keep
      (λ option.
        acceptable option (or_default network hedera_testnet)
          (or_default max_tinybars default_max_tinybars))
      requirements

-- The v2 header, or else the v1 one.
unfoldable pub read_settlement : Response → Header Settlement
read_settlement r = elim r.payment_response [
  | absent ↦ r.x_payment_response
  | garbled ↦ garbled
  | held s ↦ held s
]

pub data Paid : Type 0 where
  paid : Settlement → Paid
  bad_status no_settlement : (status : ℕ) → Paid
  failed : (status : ℕ) → (reason : Text) → Paid
  undecodable : Paid

abbrev pub reason_of : Settlement → Text
reason_of s = trim (
    text "settlement failed: "
    ++ (or_default s.error_reason (text "unknown") ++ (text " " ++ or_default s.error_message [])))

-- `payFor` after its fetch.
unfoldable pub take_payment : Response → Paid
unfolding read_settlement
take_payment r =
    if not (leb 200 r.status && leb r.status 299)
    then bad_status r.status
    else elim (read_settlement r) [
      | absent ↦ no_settlement r.status
      | garbled ↦ undecodable
      | held s ↦ if not s.success then failed r.status (reason_of s) else paid s
    ]
