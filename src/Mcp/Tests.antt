-- ===== src/Mcp/Tests.antt =====
-- A small world for tests: a node that asks for 60000 tinybars and opens a session when it is paid.
mod Payments
mod Opening
mod Confirmations
mod Searching
use mach.Base.{ℕ, ◌≡◌, refl, Bool, true, false, Option, none, some, List, [], ◌∷◌, keep, All}
use mach.Base.Int.{pos}
use mach.Js.Text.{Text, text}
use mach.Types.Session.{SessionStatus, SessionCreated}
use mach.Types.X402.{hedera_testnet, hbar_asset_id}
use mach.Mcp.World.{
  Requirements, Settlement, Header, absent, held, Body, created, json, Response, Outside,
  RespectsPolicy, PendingAction, open_session, ConfirmationHold, World,
}
use mach.Mcp.Config.{McpConfig}

abbrev pub demand : Requirements
demand = record {
  scheme = text "exact";
  network = hedera_testnet;
  asset = hbar_asset_id;
  amount = text "60000";
  pay_to = text "0.0.1234";
}

abbrev pub settlement : Settlement
settlement = record {
  success = true;
  error_reason = none;
  error_message = none;
  payer = some (text "0.0.99");
  transaction = text "0.0.99@1.2";
  network = hedera_testnet;
}

abbrev pub session : SessionCreated
session = record {
  session_id = text "s1";
  lease_id = text "l1";
  token = some (text "t1");
  status = SessionStatus.active;
  expires_at = text "1970-01-01T00:01:01.000Z";
  certificate = text "cert";
  ssh_user = text "renter";
  ssh_host = none;
  ssh_principal = text "renter";
  jupyter_url = text "https://j.one";
  jupyter_token = text "jt";
  tunnel_mode = text "quick";
  transaction = text "0.0.99@1.2";
  payer = text "0.0.99";
  amount_tinybars = text "60000";
  price_tinybars_per_second = text "1000";
  credit_tinybars = text "60000";
  low_credits = false;
  seconds = pos 60;
  session_seconds = none;
  fully_paid = none;
}

abbrev pub challenge : Response
challenge = record {
  status = 402;
  payment_required = held (demand ∷ []);
  payment_response = absent;
  x_payment_response = absent;
  body = json;
}

abbrev pub paid_answer : Response
paid_answer = record {
  status = 200;
  payment_required = absent;
  payment_response = held settlement;
  x_payment_response = absent;
  body = created session;
}

abbrev pub outside : Outside
outside = record {
  fetch = λ n request. some challenge;
  fetch_paying = λ policy n request. (some paid_answer, keep policy (demand ∷ []));
  elapsed = λ n. 10;
  random_uuid = λ n. n ∷ [];
  ssh_keygen = λ n. some (record {
    dir = text "/k";
    key_path = text "/k/id";
    public_key = text "ssh-ed25519 A";
    cert_path = text "/k/id-cert.pub";
  });
  certificate_saved = λ n. true;
  has_credentials = true;
}

-- The same, on a disk that refuses certificates.
abbrev pub lossy : Outside
lossy = record outside { certificate_saved = λ n. false }

pub outside-RespectsPolicy : RespectsPolicy outside
outside-RespectsPolicy policy n request = go (policy demand) refl
  where
    go : (b : Bool) → policy demand ≡ b → All (λ r. policy r ≡ true) (keep policy (demand ∷ []))
    go true e = rw (e, keep, All) (e, tt)
    go false e = rw (e, keep, All) tt

abbrev pub config : McpConfig
config = record {
  registry_url = text "https://registry.one";
  network = hedera_testnet;
  max_tinybars_per_payment = pos 10000000;
  max_tinybars_per_day = some (pos 100000);
  confirm_above_tinybars = some (pos 50000);
}

abbrev pub action : PendingAction
action = open_session (text "https://gpu.one") (pos 60) none none

abbrev pub start : World
start = record {
  now = 1000;
  calls = 0;
  paid = [];
  receipts = none;
  writable = true;
  audit = [];
  audit_writable = true;
  holds = [];
}

abbrev pub waiting : ConfirmationHold
waiting = record {
  id = text "c1";
  amount_tinybars = pos 60000;
  action = action;
  expires_at = 300000;
}

-- The same world with a payment held for confirmation.
abbrev pub holding : World
holding = record start { holds = waiting ∷ [] }
