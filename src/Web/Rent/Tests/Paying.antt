-- ===== src/Web/Rent/Tests/Paying.antt =====
-- A charge that the page's wallet signs.
use mathlib.Core.List.{Memᴰ}
use mach.Base.{◌≡◌, refl, sym, ap, Option, none, some, List, [], ◌∷◌}
use mach.Base.Int.{pos}
use mach.Js.Text.{text, ◌===◌}
use mach.Js.BigInt.{parse}
use mach.Types.X402.{hedera_testnet}
use mach.Mcp.World.{Requirements}
use mach.Mcp.Tests.{demand}
use mach.Client.Payment.{choose, acceptable}
use mach.Client.Browser.Base64.{base64, letter}
use mach.Client.Browser.Signer.{
  Sdk, Wallet, Challenge, Signed, TransferTransaction, ok, create_payment, build, client_for,
  assert_still_payable_by, transfers_of, pay_option,
}
use mach.Registry.Tests.{terms}
use mach.Web.Rent.Terms.{payment_cap, first_payment_seconds}
use mach.Web.Rent.Terms.Paying.{SelectsFrom, Charges, most, pay_option-Charges}

abbrev sdk : Sdk
sdk = record { account = λ t. some t; token = λ t. some t }

abbrev wallet : Wallet
wallet tx = some (record { account = some tx.fee_payer; bytes = 77 ∷ 97 ∷ 110 ∷ [] })

-- The first option that is left.
abbrev select : List Requirements → Option Challenge
select [] = none
select (r ∷ rs) = some (record { requirements = r; fee_payer = some (text "0.0.7") })

requirements_of :
    (c : Challenge) (r : Requirements)
    → some (record { requirements = r; fee_payer = some (text "0.0.7") }) ≡ some c
    → r ≡ c.requirements
requirements_of c r h = ap (λ o. elim o [ none ↦ r | some d ↦ d.requirements ]) h

select-SelectsFrom : SelectsFrom select
select-SelectsFrom [] c h = absurd (cc h)
select-SelectsFrom (r ∷ rs) c h = Memᴰ.head (sym (requirements_of c r h))

paid :
    pay_option sdk wallet
      (text "0.0.99")
      (some hedera_testnet)
      (some (payment_cap terms (pos 1000) 30))
      select
      (demand ∷ [])
    ≡ some (ok (text "TWFu"))
unfolding pay_option choose acceptable create_payment build transfers_of client_for
    assert_still_payable_by base64 letter parse payment_cap first_payment_seconds text ◌===◌
paid = refl

pay_option-Charges_example :
    (tx : TransferTransaction) × (signed : Signed) × (wallet tx ≡ some signed)
    × Charges sdk
        (text "0.0.99")
        (demand ∷ [])
        (most sdk wallet (text "0.0.99") hedera_testnet terms 1000 30)
        tx
pay_option-Charges_example =
    pay_option-Charges sdk wallet (text "0.0.99") hedera_testnet terms 1000 30 select (demand ∷ [])
      (text "TWFu") select-SelectsFrom paid
