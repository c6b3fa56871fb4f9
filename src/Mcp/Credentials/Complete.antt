-- ===== src/Mcp/Credentials/Complete.antt =====
-- What credentials that are found hold.
use mach.Base.{◌≡◌, ◌≢◌, inl, inr, ap, sym, [], arith, Bool-cases, Option-cases}
use mach.Js.Text.{Text, ◌===◌}
use mach.Js.Text.Laws.{eq_iff}
use mach.Mcp.Credentials.{
  KeyEnv, RenterCredentials, found, trimmed_or_empty, key_type_name, Credentials, read_key_type,
  renter_credentials,
}

account_of : Credentials → Text
account_of (found c) = c.account_id
account_of _ = []

key_of : Credentials → Text
key_of (found c) = c.private_key
key_of _ = []

-- Credentials that are found are those of the environment, trimmed, and neither is empty.
pub renter_credentials_complete :
    (env : KeyEnv) (c : RenterCredentials)
    → renter_credentials env ≡ found c
    → (c.account_id ≡ trimmed_or_empty env.hedera_account_id)
      × (c.account_id ≢ [])
      × (c.private_key ≡ trimmed_or_empty env.hedera_private_key)
      × (c.private_key ≢ [])
unfolding renter_credentials account_of key_of
renter_credentials_complete env c h =
    let account = trimmed_or_empty env.hedera_account_id in
    let key = trimmed_or_empty env.hedera_private_key in
    elim (Bool-cases (account === [])) [
      | inl blank ↦ absurd (ground (arith, blank))
      | inr named ↦ elim (Bool-cases (key === [])) [
        | inl blank ↦ absurd (ground (arith, named, blank))
        | inr keyed ↦ elim (Option-cases (read_key_type (key_type_name env.hedera_key_type))) [
          | inl bad ↦ absurd (ground (arith, named, keyed, bad))
          | inr (key_type, good) ↦
              let whole : RenterCredentials = record {
                account_id = account;
                private_key = key;
                key_type = key_type;
              } in
              let same : found whole ≡ found c = ground (arith, named, keyed, good) in
              let account_is : account ≡ c.account_id = ap (λ x. account_of x) same in
              let key_is : key ≡ c.private_key = ap (λ x. key_of x) same in
              (
                sym account_is,
                λ e. ground (arith, named, account_is, e, eq_iff account []),
                sym key_is,
                λ e. ground (arith, keyed, key_is, e, eq_iff key []),
              )
        ]
      ]
    ]
