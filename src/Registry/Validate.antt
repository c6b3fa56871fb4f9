-- ===== src/Registry/Validate.antt =====
-- registry/src/validate.ts. zod reads a body into the shape of a heartbeat; the checks that the
-- schema puts on the values are the definitions here. `protocol_of` is the `protocol` of
-- `new URL(value)`, and `none` where the constructor throws.
pub mod Bounds
use mach.Base.{ℕ, Bool, true, ◌&&◌, ◌||◌, Option, none, some, List, leb, length, all}
use mach.Base.Int.{ℤ, pos, leb_ℤ, ltb_ℤ}
use mach.Js.Text.{Text, text, ◌===◌}
use mach.Types.Node.{GpuInfo, LeaseOffer, ProviderIdentity}
use mach.Registry.Patterns.{
  length_in, is_node_id, is_whole_amount, is_hedera_id, is_network, is_evm_address,
}

pub record Limits : Type 0 where
  pub max_seconds : ℤ
  pub memory_mb : ℤ
  pub cpu_cores : ℤ
  pub max_artifact_mb : ℤ

pub record Heartbeat : Type 0 where
  pub node_id : Text
  pub agent_version : Text
  pub public_url : Text
  pub pay_to : Text
  pub price_tinybars : Option Text
  pub facilitator_url : Text
  pub network : Text
  pub asset : Text
  pub fee_payer : Option Text
  pub paused : Bool
  pub gpu : GpuInfo
  pub limits : Option Limits
  pub image_allowlist : Option (List Text)
  pub leases : Option LeaseOffer
  pub identity : ProviderIdentity
  pub open identity use *

-- `.optional()` and `.nullable()`
abbrev pub optional {ℓ} : {A : Type ℓ} → (A → Bool) → Option A → Bool
optional check none = true
optional check (some a) = check a

-- `z.string().min(1).max(200)`
unfoldable pub short_text : Text → Bool
short_text = length_in 1 200

module _ (protocol_of : Text → Option Text) where
  abbrev is_web : Option Text → Bool
  is_web p = elim p [
    | none ↦ Bool.false
    | some protocol ↦ protocol === text "http:" || protocol === text "https:"
  ]

  unfoldable pub http_url : Text → Bool
  http_url value = leb (length value) 500 && is_web (protocol_of value)

-- `z.number().int().positive()` and `.nonnegative()`, with their `.max`
unfoldable pub positive : ℤ → Bool
positive = ltb_ℤ (pos 0)

unfoldable pub positive_to : ℕ → ℤ → Bool
positive_to max n = ltb_ℤ (pos 0) n && leb_ℤ n (pos max)

unfoldable pub nonnegative : ℤ → Bool
nonnegative = leb_ℤ (pos 0)

unfoldable pub nonnegative_to : ℕ → ℤ → Bool
nonnegative_to max n = leb_ℤ (pos 0) n && leb_ℤ n (pos max)

unfoldable pub gpu_schema : GpuInfo → Bool
gpu_schema gpu =
    optional short_text gpu.model
    && optional (nonnegative_to 1000000) gpu.vram_mb
    && optional (λ t. leb (length t) 500) gpu.reason

unfoldable pub limits_schema : Limits → Bool
limits_schema limits =
    positive limits.max_seconds
    && positive limits.memory_mb
    && positive limits.cpu_cores
    && positive limits.max_artifact_mb

abbrev allowlist : ℕ → List Text → Bool
allowlist most hosts = all short_text hosts && leb (length hosts) most

unfoldable pub leases_schema : LeaseOffer → Bool
leases_schema offer =
    is_whole_amount offer.price_tinybars_per_minute
    && positive_to 10080 offer.min_minutes
    && positive_to 10080 offer.max_minutes
    && positive_to 525600 offer.max_total_minutes
    && positive_to 10000000 offer.memory_mb
    && positive_to 1024 offer.cpu_cores
    && nonnegative_to 1000000 offer.workspace_gb
    && allowlist 256 offer.egress_allowlist
    && optional (positive_to 86400) offer.chunk_seconds
    && optional is_whole_amount offer.price_tinybars_per_second

unfoldable pub identity_schema : ProviderIdentity → Bool
identity_schema identity =
    optional nonnegative identity.agent_id
    && optional is_evm_address identity.agent_address
    && optional short_text identity.identity_registry
    && optional is_hedera_id identity.audit_topic

unfoldable pub heartbeat_schema : (Text → Option Text) → Heartbeat → Bool
heartbeat_schema protocol_of beat =
    is_node_id beat.node_id
    && short_text beat.agent_version
    && http_url protocol_of beat.public_url
    && is_hedera_id beat.pay_to
    && optional is_whole_amount beat.price_tinybars
    && http_url protocol_of beat.facilitator_url
    && is_network beat.network
    && is_hedera_id beat.asset
    && optional is_hedera_id beat.fee_payer
    && gpu_schema beat.gpu
    && optional limits_schema beat.limits
    && optional (allowlist 64) beat.image_allowlist
    && optional leases_schema beat.leases
    && identity_schema beat.identity
