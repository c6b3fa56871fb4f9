-- ===== src/Client/Tests/Keys.antt =====
-- A key and a payment of the browser.
use mach.Base.{ℕ, ◌≡◌, ◌⊎◌, refl, none, some, [], ◌∷◌, arith}
use mach.Js.Text.{text, ◌===◌}
use mach.Js.BigInt.{parse}
use mach.Types.X402.{hedera_testnet}
use mach.Mcp.Tests.{demand}
use mach.Client.Payment.{or_default}
use mach.Client.Browser.Base64.{base64, letter}
use mach.Client.Browser.Base64.Decode.{decode}
use mach.Client.Browser.SshKey.{encode_openssh_public_key, ssh_ed25519}
use mach.Client.Browser.SshKey.ReadBack.{read_string, read-encode}
use mach.Client.Browser.Signer.{
  Sdk, Wallet, Challenge, Signed, TransferTransaction, create_payment, build, client_for,
  assert_still_payable_by, transfers_of, ok,
}
use mach.Client.Browser.Signer.Balanced.{Pays, create_payment-Pays}

encoded : (base64 (77 ∷ 97 ∷ 110 ∷ []) ≡ text "TWFu") × (base64 (77 ∷ 97 ∷ []) ≡ text "TWE=")
unfolding base64 letter text
encoded = (refl, refl)

read-encode_example :
    let (name, rest) = read_string (decode (encode_openssh_public_key (1 ∷ 2 ∷ 255 ∷ []))) in
    (name ≡ ssh_ed25519) × (read_string rest ≡ (1 ∷ 2 ∷ 255 ∷ [], []))
read-encode_example = read-encode (1 ∷ 2 ∷ 255 ∷ []) (omega arith) (omega arith)

-- Stand-ins: every text is an account, and the wallet signs what it is given.
abbrev sdk : Sdk
sdk = record { account = λ t. some t; token = λ t. some t }

abbrev wallet : Wallet
wallet tx = some (record { account = some tx.fee_payer; bytes = 77 ∷ 97 ∷ 110 ∷ [] })

abbrev challenge : Challenge
challenge = record { requirements = demand; fee_payer = some (text "0.0.7") }

signed : create_payment sdk wallet (text "0.0.99") hedera_testnet challenge ≡ ok (text "TWFu")
unfolding create_payment build transfers_of client_for assert_still_payable_by base64 letter parse
    text ◌===◌
signed = refl

create_payment-Pays_example :
    (tx : TransferTransaction) × (s : Signed) × (n : ℕ) × Pays sdk (text "0.0.99") challenge tx n
    × (wallet tx ≡ some s)
    × ((s.account ≡ none) ⊎ (s.account ≡ some (or_default challenge.fee_payer [])))
create_payment-Pays_example =
    create_payment-Pays sdk wallet (text "0.0.99") hedera_testnet challenge (text "TWFu") signed
