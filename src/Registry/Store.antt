-- ===== src/Registry/Store.antt =====
-- registry/src/store.ts over the table of registry/src/schema.ts. The table is the list of its
-- rows; the SQL statements are functions on it. The clock of the database is an argument, in
-- microseconds. `sha256` is the hexadecimal digest of node:crypto.
pub mod Token
pub mod Table
pub mod Listing
pub mod Race
use mach.Base.{
  ℕ, ◌+◌, ◌*◌, ◌/◌, Bool, true, false, not, ◌&&◌, ◌||◌, Option, none, some, List, [], ◌∷◌, map, ltb,
  leb, if◌then◌else◌, keep,
}
use mach.Base.Int.{ℤ, pos}
use mach.Js.Text.{Text, text, ◌===◌}
use mach.Js.Date.{to_iso_string}
use mach.Types.Node.{GpuInfo, LeaseOffer, NodeListing}
use mach.Registry.Validate.{Heartbeat, Limits}
use Token.{tokens_match}

-- db.ts
abbrev pub online_window_seconds : ℕ
online_window_seconds = 90

pub data HeartbeatResult : Type 0 where
  created updated wrong_token : HeartbeatResult

pub data WithdrawResult : Type 0 where
  withdrawn wrong_token unknown : WithdrawResult

-- A row of the table `nodes`. An empty `limits` column is `none`.
pub record NodeRow : Type 0 where
  pub node_id : Text
  pub token_sha256 : Text
  pub public_url : Text
  pub agent_version : Text
  pub pay_to : Text
  pub price_tinybars : Text
  pub facilitator_url : Text
  pub network : Text
  pub asset : Text
  pub fee_payer : Option Text
  pub paused : Bool
  pub withdrawn : Bool
  pub gpu : GpuInfo
  pub limits : Option Limits
  pub image_allowlist : List Text
  pub first_seen_at : ℕ
  pub last_seen_at : ℕ
  pub leases : Option LeaseOffer
  pub agent_id : Option ℤ
  pub agent_address : Option Text
  pub identity_registry : Option Text
  pub audit_topic : Option Text

abbrev pub Nodes : Type 0
Nodes = List NodeRow

-- `SELECT … WHERE node_id = $1`, its first row
unfoldable pub find : Text → Nodes → Option NodeRow
find id [] = none
find id (r ∷ t) = if r.node_id === id then some r else find id t

abbrev or_else {ℓ} : {A : Type ℓ} → Option A → A → A
or_else none d = d
or_else (some a) d = a

-- 0 is stored as NULL.
abbrev pub stored_agent_id : Option ℤ → Option ℤ
stored_agent_id none = none
stored_agent_id (some (pos ℕ.zero)) = none
stored_agent_id (some n) = some n

-- The values of the INSERT.
unfoldable pub new_row : ℕ → Heartbeat → Text → NodeRow
new_row now beat incoming = record {
  node_id = beat.node_id;
  token_sha256 = incoming;
  public_url = beat.public_url;
  agent_version = beat.agent_version;
  pay_to = beat.pay_to;
  price_tinybars = or_else beat.price_tinybars (text "0");
  facilitator_url = beat.facilitator_url;
  network = beat.network;
  asset = beat.asset;
  fee_payer = beat.fee_payer;
  paused = beat.paused;
  withdrawn = false;
  gpu = beat.gpu;
  limits = beat.limits;
  image_allowlist = or_else beat.image_allowlist [];
  first_seen_at = now;
  last_seen_at = now;
  leases = beat.leases;
  agent_id = stored_agent_id beat.agent_id;
  agent_address = beat.agent_address;
  identity_registry = beat.identity_registry;
  audit_topic = beat.audit_topic;
}

-- `ON CONFLICT (node_id) DO UPDATE SET …`: `excluded` is the row that was to be inserted.
unfoldable pub on_conflict : NodeRow → NodeRow → NodeRow
on_conflict old excluded = record old {
  withdrawn = false;
  public_url = excluded.public_url;
  agent_version = excluded.agent_version;
  pay_to = excluded.pay_to;
  price_tinybars = excluded.price_tinybars;
  facilitator_url = excluded.facilitator_url;
  network = excluded.network;
  asset = excluded.asset;
  fee_payer = excluded.fee_payer;
  paused = excluded.paused;
  gpu = excluded.gpu;
  limits = excluded.limits;
  image_allowlist = excluded.image_allowlist;
  leases = excluded.leases;
  agent_id = excluded.agent_id;
  agent_address = excluded.agent_address;
  identity_registry = excluded.identity_registry;
  audit_topic = excluded.audit_topic;
  last_seen_at = excluded.last_seen_at;
}

-- The whole INSERT statement, for a row that PostgreSQL takes: a text with a NUL fails it instead.
unfoldable pub upsert : NodeRow → Nodes → Nodes
upsert row [] = row ∷ []
upsert row (r ∷ t) = if r.node_id === row.node_id then on_conflict r row ∷ t else r ∷ upsert row t

-- `UPDATE nodes SET withdrawn = true WHERE node_id = $1`
unfoldable pub set_withdrawn : Text → Nodes → Nodes
set_withdrawn id [] = []
set_withdrawn id (r ∷ t) =
    (if r.node_id === id then record r { withdrawn = true } else r) ∷ set_withdrawn id t

-- The SELECT of `recordHeartbeat` decides on the row that it saw, if any.
unfoldable pub claim : Text → Option NodeRow → HeartbeatResult
claim incoming none = HeartbeatResult.created
claim incoming (some r) =
    if tokens_match r.token_sha256 incoming
    then HeartbeatResult.updated
    else HeartbeatResult.wrong_token

-- Its INSERT, unless the token was wrong.
unfoldable pub apply_heartbeat : HeartbeatResult → ℕ → Heartbeat → Text → Nodes → Nodes
apply_heartbeat HeartbeatResult.wrong_token now beat incoming t = t
apply_heartbeat _ now beat incoming t = upsert (new_row now beat incoming) t

unfoldable pub decide_withdraw : Text → Option NodeRow → WithdrawResult
decide_withdraw incoming none = WithdrawResult.unknown
decide_withdraw incoming (some r) =
    if tokens_match r.token_sha256 incoming
    then WithdrawResult.withdrawn
    else WithdrawResult.wrong_token

unfoldable pub apply_withdraw : WithdrawResult → Text → Nodes → Nodes
apply_withdraw WithdrawResult.withdrawn id t = set_withdrawn id t
apply_withdraw _ id t = t

module _ (sha256 : Text → Text) where
  unfoldable pub record_heartbeat : ℕ → Heartbeat → Text → Nodes → HeartbeatResult × Nodes
  record_heartbeat now beat token t =
      let incoming = sha256 token in
      let result = claim incoming (find beat.node_id t) in
      (result, apply_heartbeat result now beat incoming t)

  unfoldable pub withdraw_node : Text → Text → Nodes → WithdrawResult × Nodes
  withdraw_node id token t =
      let result = decide_withdraw (sha256 token) (find id t) in
      (result, apply_withdraw result id t)

-- `IS_ONLINE`
unfoldable pub is_online : ℕ → NodeRow → Bool
is_online now r = not r.withdrawn && ltb now (r.last_seen_at + online_window_seconds * 1000000)

-- `ORDER BY online DESC, last_seen_at DESC`: whether `a` may stand before `b`
unfoldable pub before : ℕ → NodeRow → NodeRow → Bool
before now a b =
    (is_online now a && not (is_online now b))
    || ((is_online now a || not (is_online now b)) && leb b.last_seen_at a.last_seen_at)

unfoldable pub place : ℕ → NodeRow → Nodes → Nodes
place now r [] = r ∷ []
place now r (s ∷ t) = if before now r s then r ∷ s ∷ t else s ∷ place now r t

unfoldable pub order_by : ℕ → Nodes → Nodes
unfolding place
order_by now [] = []
order_by now (r ∷ t) = place now r (order_by now t)

-- The timestamps leave the database as JavaScript dates, in milliseconds.
unfoldable pub to_listing : ℕ → NodeRow → NodeListing
to_listing now r = record {
  beat = record {
    spec = record {
      node_id = r.node_id;
      agent_version = r.agent_version;
      pay_to = r.pay_to;
      facilitator_url = r.facilitator_url;
      network = r.network;
      asset = r.asset;
      fee_payer = r.fee_payer;
      gpu = r.gpu;
      leases = r.leases;
      identity = record {
        agent_id = r.agent_id;
        agent_address = r.agent_address;
        identity_registry = r.identity_registry;
        audit_topic = r.audit_topic;
      };
    };
    public_url = r.public_url;
    paused = r.paused;
  };
  online = is_online now r;
  last_seen_at = to_iso_string (r.last_seen_at / 1000);
  first_seen_at = to_iso_string (r.first_seen_at / 1000);
}

-- The rows of the listing, in order.
unfoldable pub select_nodes : ℕ → Bool → Nodes → Nodes
select_nodes now only_online t = order_by now (keep (λ r. not only_online || is_online now r) t)

unfoldable pub list_nodes : ℕ → Bool → Nodes → List NodeListing
list_nodes now only_online t = map (to_listing now) (select_nodes now only_online t)

unfoldable pub get_node : ℕ → Text → Nodes → Option NodeListing
get_node now id t = elim (find id t) [ none ↦ none | some r ↦ some (to_listing now r) ]
