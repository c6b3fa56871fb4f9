-- ===== src/Client/Browser/Signer/Balanced.antt =====
-- What a wallet is asked to sign.
use mach.Base.{
  ℕ, ◌<◌, ◌≡◌, ◌⊎◌, ◌∙◌, inl, inr, refl, sym, ap, Bool, true, false, Option, none, some, List, [],
  ◌∷◌, arith, if◌then◌else◌, Bool-cases, Option-cases,
}
use mach.Base.Int.{ℤ, pos, negsuc, sub_ℕ, ◌+ℤ◌, leb_ℤ}
use mach.Js.Text.{Text, ◌===◌}
use mach.Js.Text.Laws.{eq_sound, eq_refl}
use mach.Js.BigInt.{parse}
use mach.Types.X402.{hbar_asset_id}
use mach.Client.Payment.{or_default}
use mach.Client.Browser.Signer.{
  Transfer, TransferTransaction, Signed, SignError, Result, ok, err, ◌>>=◌, found, Sdk, Wallet,
  moves, Challenge, transfers_of, build, create_payment, client_for, assert_still_payable_by,
}

bind_ok :
    {S T : Type 0} {t : T} (first : Result S) (next : S → Result T)
    → (first >>= next) ≡ ok t
    → (s : S) × (next s ≡ ok t) × (first ≡ ok s)
bind_ok (ok s) next h = (s, h, refl)
bind_ok (err e) next h = absurd (cc h)

found-eq-ok : {A : Type 0} (e : SignError) (o : Option A) {a : A} → found e o ≡ ok a → o ≡ some a
found-eq-ok e none h = absurd (cc h)
found-eq-ok e (some b) h = cc

unless-eq-ok :
    {A : Type 0} (b : Bool) (e : SignError) (m : Result A) {a : A}
    → (if b then err e else m) ≡ ok a
    → (b ≡ false) × (m ≡ ok a)
unless-eq-ok true e m h = absurd (cc h)
unless-eq-ok false e m h = (refl, h)

-- The sum of the changes.
abbrev pub net : List Transfer → ℤ
net [] = pos 0
net (t ∷ ts) = t.amount +ℤ net ts

net-moves :
    (token : Option Text) (payer pay_to : Text) (n : ℕ)
    → net (moves token payer pay_to (pos n)) ≡ pos 0
unfolding ◌+ℤ◌
net-moves token payer pay_to n = ground arith

above_zero : (a : ℤ) → leb_ℤ a (pos 0) ≡ false → (n : ℕ) × (0 < n) × (a ≡ pos n)
above_zero (pos n) h = (n, ground arith, refl)
above_zero (negsuc n) h = absurd (ground arith)

transfers_of-moves :
    (sdk : Sdk) (payer pay_to asset : Text) (amount : ℤ) (ts : List Transfer)
    → transfers_of sdk payer pay_to asset amount ≡ ok ts
    → (token : Option Text) × (asset ≡ hbar_asset_id → token ≡ none)
      × (ts ≡ moves token payer pay_to amount)
unfolding transfers_of
transfers_of-moves sdk payer pay_to asset amount ts h =
    elim (Bool-cases (asset === hbar_asset_id)) [
      | inl hbar ↦ (none, λ _. refl, ground (arith, hbar))
      | inr other ↦
          let (token, e, _) =
            bind_ok (found SignError.bad_token (sdk.token asset)) _ (rw other at h) in
          (
            some token,
            λ same.
                absurd
                  (cc (sym other ∙ (ap (λ a. a === hbar_asset_id) same ∙ eq_refl hbar_asset_id))),
            cc,
          )
    ]

abbrev pub between : (token : Option Text) → (payer pay_to : Text) → ℕ → List Transfer
between token payer pay_to n =
    record { token = token; account = payer; amount = sub_ℕ 0 n }
    ∷ record { token = token; account = pay_to; amount = pos n }
    ∷ []

-- A transaction that pays `n` tinybars, or units of a token, from one account to another: of HBAR,
-- where the challenge asks for HBAR.
abbrev pub Pays : Sdk → Text → Challenge → TransferTransaction → ℕ → Type 0
Pays sdk payer c tx n =
    (parse c.requirements.amount ≡ some (pos n))
    × (0 < n)
    × ((token : Option Text) × (pay_to : Text) × (sdk.account c.requirements.pay_to ≡ some pay_to)
        × (c.requirements.asset ≡ hbar_asset_id → token ≡ none)
        × (tx.transfers ≡ between token payer pay_to n))
    × (net tx.transfers ≡ pos 0)

transfers_same :
    (tx : TransferTransaction) (ts : List Transfer) {by : Text}
    → ok (record { transfers = ts; fee_payer = by }) ≡ ok tx
    → tx.transfers ≡ ts
transfers_same tx ts h = ground arith

still_payable :
    (signed : Signed) (fee_payer : Text) (checked : Signed)
    → assert_still_payable_by signed fee_payer ≡ ok checked
    → (signed.account ≡ none) ⊎ (signed.account ≡ some fee_payer)
unfolding assert_still_payable_by
still_payable signed fee_payer checked h = elim (Option-cases signed.account) [
  | inl e ↦ inl e
  | inr (actual, e) ↦ elim (Bool-cases (actual === fee_payer)) [
    | inl same ↦ inr (e ∙ ap (λ a. some a) (eq_sound actual fee_payer same))
    | inr apart ↦ absurd (ground (arith, e, apart))
  ]
]

build-Pays :
    (sdk : Sdk) (payer network : Text) (c : Challenge) (tx : TransferTransaction)
    → build sdk payer network c ≡ ok tx
    → (n : ℕ) × Pays sdk payer c tx n
unfolding build
build-Pays sdk payer network c tx h =
    let (fee_payer, h₁, _) = bind_ok (found SignError.no_fee_payer c.fee_payer) _ h in
    let (amount, h₂, a) = bind_ok (found SignError.bad_amount (parse c.requirements.amount)) _ h₁ in
    let (above, h₃) = unless-eq-ok (leb_ℤ amount (pos 0)) SignError.not_positive _ h₂ in
    let (pay_to, h₄, p) =
      bind_ok (found SignError.bad_account (sdk.account c.requirements.pay_to)) _ h₃ in
    let (ts, h₅, t) = bind_ok (transfers_of sdk payer pay_to c.requirements.asset amount) _ h₄ in
    let (_, h₆, _) = bind_ok (found SignError.bad_account (sdk.account fee_payer)) _ h₅ in
    let (_, last, _) = bind_ok (client_for network) _ h₆ in
    let (n, more, e) = above_zero amount above in
    let (token, plain, moved) =
      transfers_of-moves sdk payer pay_to c.requirements.asset amount ts t in
    let same : tx.transfers ≡ moves token payer pay_to (pos n) =
      transfers_same tx ts last ∙ (moved ∙ ap (moves token payer pay_to) e) in
    (
      n,
      (
        found-eq-ok SignError.bad_amount (parse c.requirements.amount) a ∙ ap (λ z. some z) e,
        more,
        (
          token,
          pay_to,
          found-eq-ok SignError.bad_account (sdk.account c.requirements.pay_to) p,
          plain,
          same,
        ),
        ap net same ∙ net-moves token payer pay_to n,
      ),
    )

-- When a payment is sent, the wallet was asked to move a positive amount, the one of the
-- challenge, from the payer to the account that the challenge names, with a net change of zero,
-- and what it signed has no account of its own or the fee payer's.
pub create_payment-Pays :
    (sdk : Sdk) (wallet : Wallet) (payer network : Text) (c : Challenge) (sent : Text)
    → create_payment sdk wallet payer network c ≡ ok sent
    → (tx : TransferTransaction) × (signed : Signed) × (n : ℕ) × Pays sdk payer c tx n
      × (wallet tx ≡ some signed)
      × ((signed.account ≡ none) ⊎ (signed.account ≡ some (or_default c.fee_payer [])))
unfolding create_payment assert_still_payable_by
create_payment-Pays sdk wallet payer network c sent h =
    let (tx, h₁, b) = bind_ok (build sdk payer network c) _ h in
    let (signed, h₂, w) = bind_ok (found SignError.wallet_refused (wallet tx)) _ h₁ in
    let (checked, _, k) =
      bind_ok (assert_still_payable_by signed (or_default c.fee_payer [])) _ h₂ in
    let (n, pays) = build-Pays sdk payer network c tx b in
    (
      tx,
      signed,
      n,
      pays,
      found-eq-ok SignError.wallet_refused (wallet tx) w,
      still_payable signed (or_default c.fee_payer []) checked k,
    )
