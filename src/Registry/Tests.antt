-- ===== src/Registry/Tests.antt =====
-- A small registry for tests: one node, its heartbeat and a platform whose functions compute.
mod Server
mod Store
mod Fields
use mach.Base.{
  ℕ, ◌+◌, ◌%◌, Bool, true, false, Option, none, some, List, [], ◌∷◌, map, arith, if◌then◌else◌,
}
use mach.Base.Int.{pos}
use mach.Js.Text.{Text, text, starts_with}
use mach.Types.Node.{LeaseOffer, PaymentMode}
use mach.Registry.Validate.{Heartbeat}
use mach.Registry.Store.{NodeRow, Nodes, new_row}
use mach.Registry.Store.Token.{IsAscii}
use mach.Registry.Server.{Platform}

-- A stand-in for the digest: sixteen letters.
abbrev pub digest : Text → Text
digest t = map (λ c. b'a' + c % 16) t

pub digest-IsAscii : (t : Text) → IsAscii (digest t)
digest-IsAscii [] = tt
digest-IsAscii (c ∷ t) = (omega arith, digest-IsAscii t)

abbrev pub scheme_of : Text → Option Text
scheme_of url =
    if starts_with (text "https://") url
    then some (text "https:")
    else if starts_with (text "http://") url
    then some (text "http:")
    else none

abbrev pub platform : Platform Heartbeat
platform = record { shape = λ b. some b; sha256 = digest; protocol_of = scheme_of }

abbrev pub terms : LeaseOffer
terms = record {
  price_tinybars_per_minute = text "60000";
  min_minutes = pos 1;
  max_minutes = pos 60;
  max_total_minutes = pos 240;
  ssh = true;
  jupyter = true;
  gpu = true;
  memory_mb = pos 8192;
  cpu_cores = pos 4;
  workspace_gb = pos 10;
  egress_allowlist = text "pypi.org" ∷ [];
  payment_mode = some PaymentMode.session;
  price_tinybars_per_second = some (text "1000");
  chunk_seconds = some (pos 60);
}

abbrev pub heartbeat_at : Text → Heartbeat
heartbeat_at url = record {
  node_id = text "gpu-1";
  agent_version = text "0.4.0";
  public_url = url;
  pay_to = text "0.0.1234";
  price_tinybars = none;
  facilitator_url = text "https://x402.org";
  network = text "hedera:testnet";
  asset = text "0.0.0";
  fee_payer = none;
  paused = false;
  gpu = record {
    available = true;
    model = some (text "RTX 4090");
    vram_mb = some (pos 24576);
    reason = none;
  };
  limits = none;
  image_allowlist = none;
  leases = some terms;
  identity = record {
    agent_id = some (pos 7);
    agent_address = none;
    identity_registry = none;
    audit_topic = some (text "0.0.77");
  };
}

abbrev pub first_beat : Heartbeat
first_beat = heartbeat_at (text "https://gpu.one")

abbrev pub second_beat : Heartbeat
second_beat = heartbeat_at (text "https://gpu.two")

abbrev pub owned : NodeRow
owned = new_row 1000 first_beat (digest (text "secret"))

abbrev pub table : Nodes
table = owned ∷ []
