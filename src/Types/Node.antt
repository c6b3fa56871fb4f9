-- ===== src/Types/Node.antt =====
-- packages/types/src/node.ts and lease.ts. An optional or nullable field is an `Option`; the code
-- treats an absent value and `null` alike. A JSON number is an integer here: the schema refuses
-- fractions, and nothing computes with one.
use mach.Base.{Bool, Option, List}
use mach.Base.Int.{ℤ}
use mach.Js.Text.{Text}

pub data PaymentMode : Type 0 where
  direct session : PaymentMode

pub record LeaseOffer : Type 0 where
  pub price_tinybars_per_minute : Text
  pub min_minutes : ℤ
  pub max_minutes : ℤ
  pub max_total_minutes : ℤ
  pub ssh : Bool
  pub jupyter : Bool
  pub gpu : Bool
  pub memory_mb : ℤ
  pub cpu_cores : ℤ
  pub workspace_gb : ℤ
  pub egress_allowlist : List Text
  pub payment_mode : Option PaymentMode
  pub price_tinybars_per_second : Option Text
  pub chunk_seconds : Option ℤ

pub record GpuInfo : Type 0 where
  pub available : Bool
  pub model : Option Text
  pub vram_mb : Option ℤ
  pub reason : Option Text

pub record ProviderIdentity : Type 0 where
  pub agent_id : Option ℤ
  pub agent_address : Option Text
  pub identity_registry : Option Text
  pub audit_topic : Option Text

pub record NodeSpec : Type 0 where
  pub node_id : Text
  pub agent_version : Text
  pub pay_to : Text
  pub facilitator_url : Text
  pub network : Text
  pub asset : Text
  pub fee_payer : Option Text
  pub gpu : GpuInfo
  pub leases : Option LeaseOffer
  pub identity : ProviderIdentity
  pub open identity use *

pub record NodeHeartbeat : Type 0 where
  pub spec : NodeSpec
  pub open spec use *
  pub public_url : Text
  pub paused : Bool

pub record NodeListing : Type 0 where
  pub beat : NodeHeartbeat
  pub open beat use *
  pub online : Bool
  pub last_seen_at : Text
  pub first_seen_at : Text
