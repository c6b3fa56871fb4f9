-- ===== src/Web/Rent/Terms/Paying.antt =====
-- What the wallet is asked to pay when a node charges the page: session-flow.tsx's payer, with the
-- policy of client/src/payment.ts and the wallet of client/src/browser.
use mathlib.Core.List.{Memᴰ}
use mach.Base.{
  ℕ, ◌*◌, ◌<◌, ◌≤◌, ◌≡◌, ◌∙◌, ap, Option, none, some, List, arith, Option-cases, inl, inr,
}
use mach.Base.Int.{pos}
use mach.Js.Text.{Text}
use mach.Types.Node.{LeaseOffer}
use mach.Mcp.World.{Requirements}
use mach.Client.Payment.{choose}
use mach.Client.Payment.Agreement.{choose_iff}
use mach.Client.Browser.Signer.{
  Sdk, Wallet, Challenge, TransferTransaction, Signed, ok, create_payment, pay_option,
}
use mach.Client.Browser.Signer.Balanced.{between, create_payment-Pays}
use mach.Web.Rent.Terms.{payment_cap, first_payment_seconds}
use mach.Web.Rent.Terms.Cover.{payment_cap-pos, affordable_amount}

-- The x402 client pays one of the options that the policy left.
abbrev pub SelectsFrom : (List Requirements → Option Challenge) → Type 0
SelectsFrom select =
    (left : List Requirements) (c : Challenge) → select left ≡ some c → Memᴰ c.requirements left

-- A transaction of at most `most` tinybars from the page's account to the payee of an option.
abbrev pub Charges : Sdk → Text → List Requirements → ℕ → TransferTransaction → Type 0
Charges sdk account options most tx =
    (payer : Text) × (option : Requirements) × (pay_to : Text) × (n : ℕ) × (sdk.account account
      ≡ some payer)
    × Memᴰ option options
    × (sdk.account option.pay_to ≡ some pay_to)
    × (0 < n)
    × (n ≤ most)
    × (tx.transfers ≡ between none payer pay_to n)

module _ (sdk : Sdk) (wallet : Wallet) (account network : Text) (offer : LeaseOffer)
    (price minutes : ℕ) where
  abbrev pub most : ℕ
  most = price * first_payment_seconds offer minutes * 2

  charges :
      (payer : Text) (options : List Requirements) (c : Challenge) (sent : Text)
      → sdk.account account ≡ some payer
      → Memᴰ c.requirements
          (choose (some network) (some (payment_cap offer (pos price) minutes)) options)
      → create_payment sdk wallet payer network c ≡ ok sent
      → (tx : TransferTransaction) × (signed : Signed) × (wallet tx ≡ some signed)
        × Charges sdk account options most tx
  charges payer options c sent known left done =
      let (tx, signed, n, (amount, more, (token, pay_to, payee, plain, moved), _), asked, _) =
        create_payment-Pays sdk wallet payer network c sent done in
      let cap = payment_cap-pos offer price minutes in
      let (offered, fits) =
        (choose_iff (some network) (some (payment_cap offer (pos price) minutes)) options
            c.requirements).0
          left in
      let bounded : n ≤ most =
        affordable_amount n most network c.requirements amount (rw cap at fits) in
      let paid : tx.transfers ≡ between none payer pay_to n =
        moved ∙ ap (λ t. between t payer pay_to n) (plain fits.1) in
      (
        tx,
        signed,
        asked,
        (payer, c.requirements, pay_to, n, known, offered, payee, more, bounded, paid),
      )

  -- Whatever options a node offers the page, a payment that is sent had the wallet sign the
  -- transfer of a positive amount of HBAR, at most twice the first payment, from the page's
  -- account to the payee of one of the options, provided the x402 client pays one of the options
  -- that the policy left.
  pub pay_option-Charges :
      (select : List Requirements → Option Challenge) (options : List Requirements) (sent : Text)
      → SelectsFrom select
      → pay_option sdk wallet account
          (some network)
          (some (payment_cap offer (pos price) minutes))
          select
          options
        ≡ some (ok sent)
      → (tx : TransferTransaction) × (signed : Signed) × (wallet tx ≡ some signed)
        × Charges sdk account options most tx
  unfolding pay_option
  pay_option-Charges select options sent selects done = elim (Option-cases (sdk.account account)) [
    | inl unknown ↦ absurd (ground (arith, rw (unknown, pay_option) at done))
    | inr (payer, known) ↦
        let left = choose (some network) (some (payment_cap offer (pos price) minutes)) options in
        elim (Option-cases (select left)) [
          | inl idle ↦ absurd (ground (arith, rw (known, idle, pay_option) at done))
          | inr (c, chosen) ↦
              charges payer options c sent known (selects left c chosen)
                (cc (rw (known, chosen, pay_option) at done))
        ]
  ]
