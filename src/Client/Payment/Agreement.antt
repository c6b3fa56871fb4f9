-- ===== src/Client/Payment/Agreement.antt =====
-- The client's copy of the payment path against the copy of the agent tools.
use mathlib.Core.List.{Memᴰ}
use mach.Types.X402.{hedera_testnet}
use mach.Js.BigInt.{parse}
use mach.Mcp.Payer.Policy.{IsAffordable, acceptable_iff}
use mach.Base.{
  Mem-keep, keep-Mem, ◌≡◌, ◌↔◌, ◌∙◌, sym, refl, Bool, not, Option, some, List, arith, if◌then◌else◌,
  Bool-cases, Option-cases, inl, inr,
}
use mach.Base.Int.{ℤ}
use mach.Js.Text.{Text}
use mach.Mcp.World.{
  Requirements, Settlement, Header, absent, garbled, held, Response, HttpRequest, Outside, World,
  ok,
}
use mach.Mcp.Payer.{is_ok, check_settlement}
use mach.Mcp.Payer
use mach.Client.Payment.{
  or_default, default_max_tinybars, paid, no_settlement, failed, undecodable, choose, take_payment,
  reason_of, acceptable, read_settlement,
}

same_settlement : (r : Response) → read_settlement r ≡ Payer.read_settlement r
unfolding read_settlement
same_settlement r = same r.payment_response refl
  where
    same :
        (h : Header Settlement)
        → r.payment_response ≡ h
        → read_settlement r ≡ Payer.read_settlement r
    same absent e = rw e refl
    same garbled e = rw e refl
    same (held s) e = rw e refl

checked_iff :
    (r : Response) (found : Header Settlement) (s : Settlement) (w : World)
    → ((elim found [
      | absent ↦ no_settlement r.status
      | garbled ↦ undecodable
      | held t ↦ if not t.success then failed r.status (reason_of t) else paid t
    ])
        ≡ paid s)
      ↔ ((check_settlement r found w).0 ≡ ok (r, s))
checked_iff r absent s w = (λ h. cc, λ h. cc)
checked_iff r garbled s w = (λ h. cc, λ h. cc)
checked_iff r (held t) s w = elim (Bool-cases t.success) [
  | inl e ↦ (λ h. ground (arith, e), λ h. ground (arith, e))
  | inr e ↦ (λ h. ground (arith, e), λ h. ground (arith, e))
]

-- Of a response that came, the client takes as paid exactly what the agent tools' copy of the
-- payment path takes as paid, with the same settlement.
pub take_payment-pay_for :
    (o : Outside) (network : Text) (max : ℤ) (request : HttpRequest) (w : World) (r : Response)
    (s : Settlement)
    → (o.fetch_paying (Payer.acceptable network max) w.calls request).0 ≡ some r
    → (take_payment r ≡ paid s) ↔ ((Payer.pay_for o network max request w).0 ≡ ok (r, s))
unfolding take_payment Payer.pay_for Payer.pay
take_payment-pay_for o network max request w r s e = elim (Bool-cases (is_ok r)) [
  | inl good ↦
      rw (e, good, take_payment, same_settlement r) (checked_iff r (Payer.read_settlement r) s _)
  | inr bad ↦ rw (e, bad, take_payment) (λ h. cc, λ h. cc)
]

same_acceptable :
    (option : Requirements) (network : Text) (max : ℤ)
    → acceptable option network max ≡ Payer.acceptable network max option
unfolding acceptable Payer.acceptable
same_acceptable option network max = elim (Option-cases (parse option.amount)) [
  | inl e ↦ rw e refl
  | inr (amount, e) ↦ rw e refl
]

-- The client's policy leaves exactly the affordable ones of the options: on the network and within
-- the cap that were asked for, or else on the test network and within the default cap.
pub choose_iff :
    (network : Option Text) (max : Option ℤ) (options : List Requirements) (option : Requirements)
    → Memᴰ option (choose network max options) ↔ (
        Memᴰ option options
        × IsAffordable
            (or_default network hedera_testnet)
            (or_default max default_max_tinybars)
            option)
unfolding choose
choose_iff network max options option =
    let net = or_default network hedera_testnet in
    let cap = or_default max default_max_tinybars in
    let policy : Requirements → Bool = λ r. acceptable r net cap in
    let agree = same_acceptable option net cap in
    (
      λ m.
          let (n, h) = Mem-keep policy option options m in
          (n, (acceptable_iff net cap option).0 (sym agree ∙ h)),
      λ mh. keep-Mem policy option options mh.0 (agree ∙ (acceptable_iff net cap option).1 mh.1),
    )
