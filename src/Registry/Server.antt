-- ===== src/Registry/Server.antt =====
-- registry/src/server.ts: the routes. A request carries what its handler reads; a reply is the
-- status with what the body tells. zod's list of issues is left out of the reply to a bad body.
pub mod Ownership
pub mod Presence
pub mod Invariant
use mach.Base.{
  ℕ, ◌+◌, Bool, true, false, Option, none, some, List, [], ◌∷◌, map, if◌then◌else◌, length, drop,
}
use mach.Js.Text.{Text, text, ◌===◌, starts_with, trim}
use mach.Types.Node.{NodeListing}
use mach.Registry.Validate.{Heartbeat, heartbeat_schema}
use mach.Registry.Store.{
  Nodes, HeartbeatResult, WithdrawResult, record_heartbeat, withdraw_node, list_nodes, get_node,
  online_window_seconds,
}
use mach.Registry.Providers.{ProviderView, to_provider_view}

-- What the server has from zod (the shape of a body), node:crypto and the URL parser.
pub record Platform (Body : Type 0) : Type 0 where
  pub shape : Body → Option Heartbeat
  pub sha256 : Text → Text
  pub protocol_of : Text → Option Text

pub data Request (Body : Type 0) : Type 0 where
  health : Request Body
  heartbeat : (authorization : Option Text) → Body → Request Body
  offline : (id : Text) → (authorization : Option Text) → Request Body
  nodes providers : (online : Option Text) → Request Body
  node provider : (id : Text) → Request Body

pub data Reply : Type 0 where
  refused : (code : ℕ) → (error : Text) → Reply
  healthy : (window : ℕ) → Reply
  beat : (node_id : Text) → (claimed : Bool) → (window : ℕ) → Reply
  gone : (node_id : Text) → Reply
  node_list : List NodeListing → (window : ℕ) → Reply
  provider_list : List ProviderView → (window : ℕ) → Reply
  one_node : NodeListing → Reply
  one_provider : ProviderView → Reply

abbrev non_empty : Text → Option Text
non_empty [] = none
non_empty (c ∷ s) = some (c ∷ s)

unfoldable pub bearer_token : Option Text → Option Text
bearer_token none = none
bearer_token (some header) =
    if starts_with (text "Bearer ") header then non_empty (trim (drop 7 header)) else none

abbrev pub missing_token : Reply
missing_token = refused 401 (text "expected an Authorization: Bearer <registry_token> header")

abbrev pub foreign_token : Reply
foreign_token = refused 403 (text "this node_id is registered to a different token")

-- `request.query.online === "true"`
abbrev only_online : Option Text → Bool
only_online none = false
only_online (some value) = value === text "true"

abbrev pub heartbeat_reply : Text → HeartbeatResult → Reply
heartbeat_reply id HeartbeatResult.created = beat id true online_window_seconds
heartbeat_reply id HeartbeatResult.updated = beat id false online_window_seconds
heartbeat_reply id HeartbeatResult.wrong_token = foreign_token

abbrev pub offline_reply : Text → WithdrawResult → Reply
offline_reply id WithdrawResult.withdrawn = gone id
offline_reply id WithdrawResult.wrong_token = foreign_token
offline_reply id WithdrawResult.unknown = refused 404 (text "no such node")

module _ {Body : Type 0} (p : Platform Body) where
  -- `heartbeatSchema.safeParse(body)`
  unfoldable pub safe_parse : Body → Option Heartbeat
  safe_parse body = elim (p.shape body) [
    | none ↦ none
    | some b ↦ if heartbeat_schema p.protocol_of b then some b else none
  ]

  unfoldable pub post_heartbeat : ℕ → Option Text → Body → Nodes → Reply × Nodes
  post_heartbeat now authorization body t = elim (bearer_token authorization) [
    | none ↦ (missing_token, t)
    | some token ↦ elim (safe_parse body) [
      | none ↦ (refused 400 (text "invalid heartbeat"), t)
      | some b ↦
          let (result, t') = record_heartbeat p.sha256 now b token t in
          (heartbeat_reply b.node_id result, t')
    ]
  ]

  unfoldable pub post_offline : Text → Option Text → Nodes → Reply × Nodes
  post_offline id authorization t = elim (bearer_token authorization) [
    | none ↦ (missing_token, t)
    | some token ↦
        let (result, t') = withdraw_node p.sha256 id token t in (offline_reply id result, t')
  ]

  -- The handlers of `buildServer`, by route.
  unfoldable pub handle : ℕ → Request Body → Nodes → Reply × Nodes
  unfolding post_heartbeat post_offline
  handle now health t = (healthy online_window_seconds, t)
  handle now (heartbeat authorization body) t = post_heartbeat now authorization body t
  handle now (offline id authorization) t = post_offline id authorization t
  handle now (nodes online) t =
      (node_list (list_nodes now (only_online online) t) online_window_seconds, t)
  handle now (providers online) t = (
    provider_list (map to_provider_view (list_nodes now (only_online online) t))
        online_window_seconds,
    t,
  )
  handle now (node id) t = (
    elim (get_node now id t) [ none ↦ refused 404 (text "no such node") | some n ↦ one_node n ],
    t,
  )
  handle now (provider id) t = (
    elim (get_node now id t) [
      | none ↦ refused 404 (text "no such provider")
      | some n ↦ one_provider (to_provider_view n)
    ],
    t,
  )

  -- Requests in the order in which they are served, each with the time.
  unfoldable pub serve : List (ℕ × Request Body) → Nodes → Nodes
  serve [] t = t
  serve ((now, request) ∷ rest) t = serve rest (handle now request t).1
