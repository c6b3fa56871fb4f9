-- ===== src/Registry/Providers.antt =====
-- registry/src/providers.ts: the view of a node for an autonomous renter.
pub mod View
use mach.Base.{
  ℕ, suc, ◌+◌, ◌-◌, ◌/◌, Bool, true, false, not, ◌||◌, Option, none, some, List, [], ◌∷◌, ◌++◌, leb,
  if◌then◌else◌,
}
use mach.Base.Int.{ℤ, pos, negsuc}
use mach.Js.BigInt.{negate}
use mach.Js.Text.{Text, text, ◌===◌, includes, fold_case, drop_end_slash}
use mach.Types.Node.{PaymentMode, direct, session, LeaseOffer, GpuInfo, NodeListing}

pub data Status : Type 0 where
  online paused offline : Status

pub record GpuView : Type 0 where
  pub available : Bool
  pub vendor : Option Text
  pub model : Option Text
  pub vram_gb : Option ℤ

pub record Pricing : Type 0 where
  pub per_second_tinybars : Option Text
  pub refundable : Bool
  pub chunk_seconds : Option ℤ

pub record Endpoint : Type 0 where
  pub url : Text
  pub agent_card : Text
  pub network : Text
  pub pay_to : Text

pub record ProviderView : Type 0 where
  pub provider_id : Text
  pub agent_id : Option ℤ
  pub agent_address : Option Text
  pub identity_registry : Option Text
  pub audit_topic : Option Text
  pub gpu : GpuView
  pub capabilities : List Text
  pub pricing : Pricing
  pub endpoint : Endpoint
  pub status : Status
  pub agent_version : Text
  pub first_seen_at : Text
  pub last_seen_at : Text

-- `/nvidia|rtx|gtx|tesla|quadro|a100|h100|l4|t4/i.test(model)`
abbrev names_nvidia : Text → Bool
names_nvidia model =
    let m = fold_case model in
    includes (text "nvidia") m
    || includes (text "rtx") m
    || includes (text "gtx") m
    || includes (text "tesla") m
    || includes (text "quadro") m
    || includes (text "a100") m
    || includes (text "h100") m
    || includes (text "l4") m
    || includes (text "t4") m

unfoldable pub gpu_vendor : Option Text → Option Text
gpu_vendor none = none
gpu_vendor (some []) = none
gpu_vendor (some (c ∷ s)) = if names_nvidia (c ∷ s) then some (text "NVIDIA") else none

-- `Math.round(n / 1024)`: to the nearest, a half upwards
unfoldable pub to_gb : ℤ → ℤ
to_gb (pos n) = pos ((n + 512) / 1024)
to_gb (negsuc n) = negate ((suc n + 511) / 1024)

abbrev pub is_session : Option PaymentMode → Bool
is_session (some session) = true
is_session (some direct) = false
is_session none = false

abbrev pub when : Bool → Text → List Text
when true t = t ∷ []
when false t = []

abbrev pub lease_capabilities : Option LeaseOffer → List Text
lease_capabilities none = []
lease_capabilities (some offer) =
    when offer.ssh (text "ssh")
    ++ (when offer.jupyter (text "jupyter")
        ++ when (is_session offer.payment_mode) (text "refundable"))

abbrev pub is_some {ℓ} : {A : Type ℓ} → Option A → Bool
is_some none = false
is_some (some a) = true

unfoldable pub capabilities_of : NodeListing → List Text
capabilities_of node =
    (text "docker" ∷ text "x402" ∷ [])
    ++ (when node.gpu.available (text "cuda")
        ++ (lease_capabilities node.leases ++ when (is_some node.audit_topic) (text "hcs-audit")))

unfoldable pub status_of : NodeListing → Status
status_of node =
    if not node.online then Status.offline else if node.paused then Status.paused else Status.online

abbrev pub lease_field {ℓ} : {A : Type ℓ} → (LeaseOffer → Option A) → Option LeaseOffer → Option A
lease_field f none = none
lease_field f (some offer) = f offer

abbrev pub map_option {ℓ} : {A : Type ℓ} → (A → A) → Option A → Option A
map_option f none = none
map_option f (some a) = some (f a)

unfoldable pub to_provider_view : NodeListing → ProviderView
unfolding gpu_vendor to_gb capabilities_of status_of
to_provider_view node =
    let metered = is_session (lease_field (λ o. o.payment_mode) node.leases) in
    record {
      provider_id = node.node_id;
      agent_id = node.agent_id;
      agent_address = node.agent_address;
      identity_registry = node.identity_registry;
      audit_topic = node.audit_topic;
      gpu = record {
        available = node.gpu.available;
        vendor = gpu_vendor node.gpu.model;
        model = node.gpu.model;
        vram_gb = map_option to_gb node.gpu.vram_mb;
      };
      capabilities = capabilities_of node;
      pricing = record {
        per_second_tinybars = lease_field (λ o. o.price_tinybars_per_second) node.leases;
        refundable = metered;
        chunk_seconds = if metered then lease_field (λ o. o.chunk_seconds) node.leases else none;
      };
      endpoint = record {
        url = node.public_url;
        agent_card = drop_end_slash node.public_url ++ text "/.well-known/agent-card.json";
        network = node.network;
        pay_to = node.pay_to;
      };
      status = status_of node;
      agent_version = node.agent_version;
      first_seen_at = node.first_seen_at;
      last_seen_at = node.last_seen_at;
    }
