-- ===== src/Client/Browser/Signer.antt =====
-- client/src/browser/wallet-signer.ts and index.ts: a payment that a wallet signs for someone else to
-- send. The SDK reads accounts and tokens, freezes and prints transactions; the wallet signs: these are
-- parameters.
pub mod Balanced
use mach.Base.{ℕ, Bool, true, false, not, Option, none, some, List, [], ◌∷◌, ◌++◌, if◌then◌else◌}
use mach.Base.Int.{ℤ, pos, negsuc, leb_ℤ, sub_ℕ, pos_part, neg_part}
use mach.Js.Text.{Text, text, ◌===◌}
use mach.Js.BigInt.{parse}
use mach.Types.X402.{hedera_testnet, hbar_asset_id}
use mach.Mcp.World.{Requirements}
use mach.Client.Browser.Base64.{base64}
use mach.Client.Payment.{choose, or_default}

-- A change of an account's balance, of HBAR or of a token.
pub record Transfer : Type 0 where
  pub token : Option Text
  pub account : Text
  pub amount : ℤ

pub record TransferTransaction : Type 0 where
  pub transfers : List Transfer
  pub fee_payer : Text

-- What the wallet gives back: the account of its transaction id, and its bytes.
pub record Signed : Type 0 where
  pub account : Option Text
  pub bytes : List ℕ

pub data SignError : Type 0 where
  no_fee_payer not_positive wrong_network bad_account bad_token : SignError
  bad_amount : SignError
  wallet_refused : SignError
  resigned : (actual fee_payer : Text) → SignError

pub data Result {ℓ} (A : Type ℓ) : Type ℓ where
  ok : A → Result A
  err : SignError → Result A

infixl 5 ◌>>=◌
abbrev pub ◌>>=◌ {ℓ κ} : {A : Type ℓ} {B : Type κ} → Result A → (A → Result B) → Result B
ok a >>= f = f a
err e >>= f = err e

abbrev found {ℓ} : {A : Type ℓ} → SignError → Option A → Result A
found e none = err e
found e (some a) = ok a

-- `-amount`
abbrev pub negated : ℤ → ℤ
negated a = sub_ℕ (neg_part a) (pos_part a)

pub record Sdk : Type 0 where
  pub account : Text → Option Text
  pub token : Text → Option Text

-- The wallet: what it makes of a frozen transaction, `none` for a refusal.
abbrev pub Wallet : Type 0
Wallet = TransferTransaction → Option Signed

-- `clientFor`, whose network a transaction is frozen for
unfoldable pub client_for : Text → Result Text
client_for network = if network === hedera_testnet then ok network else err wrong_network

unfoldable pub assert_still_payable_by : Signed → Text → Result Signed
assert_still_payable_by signed fee_payer = elim signed.account [
  | none ↦ ok signed
  | some actual ↦ if not (actual === fee_payer) then err (resigned actual fee_payer) else ok signed
]

abbrev pub moves : (token : Option Text) → (payer pay_to : Text) → ℤ → List Transfer
moves token payer pay_to amount =
    record { token = token; account = payer; amount = negated amount }
    ∷ record { token = token; account = pay_to; amount = amount }
    ∷ []

-- The options of a challenge, with the `extra.feePayer` that it carries, if that is a text.
pub record Challenge : Type 0 where
  pub requirements : Requirements
  pub fee_payer : Option Text

module _ (sdk : Sdk) where
  -- The changes of balance: of HBAR, or of the token that the node asks for.
  unfoldable pub transfers_of : (payer pay_to asset : Text) → ℤ → Result (List Transfer)
  transfers_of payer pay_to asset amount =
      if asset === hbar_asset_id
      then ok (moves none payer pay_to amount)
      else found bad_token (sdk.token asset) >>= λ token.
          ok (moves (some token) payer pay_to amount)

  -- The transaction that the wallet is asked to sign, for the network of the page's node.
  unfoldable pub build : (payer network : Text) → Challenge → Result TransferTransaction
  unfolding transfers_of client_for parse
  build payer network c = do
    fee_payer ← found no_fee_payer c.fee_payer
    amount ← found bad_amount (parse c.requirements.amount)
    if leb_ℤ amount (pos 0) then err not_positive else do
      pay_to ← found bad_account (sdk.account c.requirements.pay_to)
      transfers ← transfers_of payer pay_to c.requirements.asset amount
      by ← found bad_account (sdk.account fee_payer)
      network' ← client_for network
      ok (record { transfers = transfers; fee_payer = by })

  -- `createPartiallySignedTransferTransaction`
  unfoldable pub create_payment : Wallet → (payer network : Text) → Challenge → Result Text
  unfolding build assert_still_payable_by base64
  create_payment wallet payer network c = do
    transaction ← build payer network c
    signed ← found wallet_refused (wallet transaction)
    checked ← assert_still_payable_by signed (or_default c.fee_payer [])
    ok (base64 checked.bytes)

  -- `createWalletPayer`, from a challenge that offers several options to the payment that is sent;
  -- which of the acceptable ones is paid is for the x402 client to choose.
  unfoldable pub pay_option :
      Wallet
      → (account : Text) → (network : Option Text) → (max_tinybars : Option ℤ)
      → (List Requirements → Option Challenge)
      → List Requirements
      → Option (Result Text)
  unfolding create_payment choose
  pay_option wallet account network max_tinybars select options = elim (sdk.account account) [
    | none ↦ some (err bad_account)
    | some payer ↦ elim (select (choose network max_tinybars options)) [
      | none ↦ none
      | some c ↦ some (create_payment wallet payer (or_default network hedera_testnet) c)
    ]
  ]
