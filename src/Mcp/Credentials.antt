-- ===== src/Mcp/Credentials.antt =====
-- packages/mcp-server/src/vendor/env.ts: the account and the key of the renter, from the environment.
pub mod Complete
use mach.Base.{Bool, true, false, not, ◌||◌, Option, none, some, List, [], ◌∷◌, if◌then◌else◌}
use mach.Js.Text.{Text, text, ◌===◌, trim, fold_case}
use mach.Mcp.Payer.{text_or}

pub record KeyEnv : Type 0 where
  pub hedera_account_id : Option Text
  pub hedera_private_key : Option Text
  pub hedera_key_type : Option Text

pub data KeyType : Type 0 where
  ecdsa ed25519 : KeyType

pub record RenterCredentials : Type 0 where
  pub account_id : Text
  pub private_key : Text
  pub key_type : KeyType

pub data Credentials : Type 0 where
  found : RenterCredentials → Credentials
  unset : Credentials
  bad_key_type : Text → Credentials

-- `process.env[name]?.trim()`, with an empty text for none: both are refused alike.
abbrev pub trimmed_or_empty : Option Text → Text
trimmed_or_empty none = []
trimmed_or_empty (some raw) = trim raw

-- `(… ?? "ecdsa").trim().toLowerCase()`; only ASCII letters can make one of the two names.
abbrev pub key_type_name : Option Text → Text
key_type_name variable = fold_case (trim (text_or variable (text "ecdsa")))

unfoldable pub read_key_type : Text → Option KeyType
read_key_type name =
    if name === text "ecdsa"
    then some ecdsa
    else if name === text "ed25519"
    then some ed25519
    else none

unfoldable pub renter_credentials : KeyEnv → Credentials
renter_credentials env =
    let account = trimmed_or_empty env.hedera_account_id in
    let key = trimmed_or_empty env.hedera_private_key in
    let name = key_type_name env.hedera_key_type in
    if account === [] || key === [] then unset else elim (read_key_type name) [
      | none ↦ bad_key_type name
      | some key_type ↦
          found (record { account_id = account; private_key = key; key_type = key_type })
    ]
