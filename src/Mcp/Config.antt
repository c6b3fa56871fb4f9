-- ===== src/Mcp/Config.antt =====
-- packages/mcp-server/src/config.ts. A variable of the environment is an optional text.
use mach.Base.{Bool, false, Option, none, some, [], ◌∷◌, if◌then◌else◌, ◌≡◌, arith}
use mach.Base.Int.{ℤ, pos, ltb_ℤ, ◌≤ℤ◌}
use mach.Js.Text.{Text, text, trim}
use mach.Js.BigInt.{parse}
use mach.Types.X402.{hedera_testnet}
use mach.Mcp.Payer.{default_max_tinybars_per_payment, text_or}

pub record McpConfig : Type 0 where
  pub registry_url : Text
  pub network : Text
  pub max_tinybars_per_payment : ℤ
  pub max_tinybars_per_day : Option ℤ
  pub confirm_above_tinybars : Option ℤ

pub record Env : Type 0 where
  pub mach402_registry_url : Option Text
  pub mach402_max_tinybars_per_payment : Option Text
  pub mach402_max_tinybars_per_day : Option Text
  pub mach402_confirm_above_tinybars : Option Text
  pub hedera_network : Option Text

pub data ConfigError : Type 0 where
  no_registry : ConfigError
  not_an_integer : (name raw : Text) → ConfigError
  confirm_above_cap : (confirm cap : ℤ) → ConfigError

pub data Loaded (A : Type 0) : Type 0 where
  loaded : A → Loaded A
  rejected : ConfigError → Loaded A

infixl 5 ◌>>=◌
abbrev ◌>>=◌ : {A B : Type 0} → Loaded A → (A → Loaded B) → Loaded B
loaded a >>= f = f a
rejected e >>= f = rejected e

-- `process.env[name]?.trim()`, where an empty text counts as none
abbrev trimmed : Option Text → Option Text
trimmed none = none
trimmed (some raw) = elim (trim raw) [ [] ↦ none | c ∷ s ↦ some (c ∷ s) ]

abbrev integer : Text → Option Text → Loaded (Option ℤ)
integer name none = loaded none
integer name (some raw) = elim (parse raw) [
  | none ↦ rejected (not_an_integer name raw)
  | some z ↦ loaded (some z)
]

read_big_int_env : Text → Option Text → Loaded (Option ℤ)
read_big_int_env name variable = integer name (trimmed variable)

abbrev require_registry : Option Text → Loaded Text
require_registry none = rejected no_registry
require_registry (some url) = loaded url

abbrev or_default : Option ℤ → ℤ → ℤ
or_default none d = d
or_default (some z) d = z

abbrev exceeds : Option ℤ → ℤ → Bool
exceeds none cap = false
exceeds (some confirm) cap = ltb_ℤ cap confirm

unfoldable pub load_config : Env → Loaded McpConfig
unfolding read_big_int_env
load_config env = do
  registry_url ← require_registry (trimmed env.mach402_registry_url)
  per_payment ←
      read_big_int_env (text "mach402_MAX_TINYBARS_PER_PAYMENT")
        env.mach402_max_tinybars_per_payment
  let cap = or_default per_payment (pos default_max_tinybars_per_payment)
  confirm ←
      read_big_int_env (text "mach402_CONFIRM_ABOVE_TINYBARS") env.mach402_confirm_above_tinybars
  if exceeds confirm cap then rejected (confirm_above_cap (or_default confirm (pos 0)) cap) else do
    per_day ←
        read_big_int_env (text "mach402_MAX_TINYBARS_PER_DAY") env.mach402_max_tinybars_per_day
    loaded (record {
      registry_url = registry_url;
      network = text_or env.hedera_network hedera_testnet;
      max_tinybars_per_payment = cap;
      max_tinybars_per_day = per_day;
      confirm_above_tinybars = confirm;
    })

-- A configuration that loads with a confirmation threshold has it at or below the cap on a
-- payment.
pub load_config_consistent :
    (env : Env) (config : McpConfig) (confirm : ℤ)
    → load_config env ≡ loaded config
    → config.confirm_above_tinybars ≡ some confirm
    → confirm ≤ℤ config.max_tinybars_per_payment
unfolding load_config
load_config_consistent env config confirm h e = ground arith
