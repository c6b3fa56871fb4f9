-- ===== src/Registry/Server/Invariant.antt =====
-- What holds of the table after any sequence of requests.
use mach.Base.{
  ℕ, ◌≡◌, Bool, true, false, Option, some, List, [], ◌∷◌, arith, All, Bool-cases, Option-cases, inl,
  inr, length, ◌≤◌, if◌then◌else◌,
}
use mach.Js.Text.{Text, ◌===◌}
use mach.Registry.Patterns.Grammar.{IsHederaId}
use mach.Registry.Validate.{Heartbeat}
use mach.Registry.Validate.Bounds.{
  IsWebUrl, HasBoundedTerms, Each, IsSound, heartbeat_schema-IsSound,
}
use mach.Registry.Store.{
  NodeRow, Nodes, HeartbeatResult, WithdrawResult, new_row, on_conflict, upsert, set_withdrawn,
  claim, find, apply_heartbeat, decide_withdraw, apply_withdraw, record_heartbeat, withdraw_node,
}
use mach.Registry.Store.Table.{HasDistinctIds, upsert-HasDistinctIds, set_withdrawn-HasDistinctIds}
use mach.Registry.Server.{
  Platform, Request, health, heartbeat, offline, bearer_token, safe_parse, post_heartbeat,
  post_offline, handle, serve,
}

-- What the website may show of a row: a web link, ids, bounded terms.
pub record IsPublishable (protocol_of : Text → Option Text) (r : NodeRow) : Type 0 where
  pub node_id : length r.node_id ≤ 64
  pub public_url : IsWebUrl protocol_of r.public_url
  pub pay_to : IsHederaId r.pay_to
  pub leases : Each HasBoundedTerms r.leases

-- Each id has one row, and every row may be shown.
abbrev pub IsValid : (Text → Option Text) → Nodes → Type 0
IsValid protocol_of t = HasDistinctIds t × All (IsPublishable protocol_of) t

module _ (protocol_of : Text → Option Text) where
  new_row-IsPublishable :
      (now : ℕ) (b : Heartbeat) (incoming : Text)
      → IsSound protocol_of b
      → IsPublishable protocol_of (new_row now b incoming)
  unfolding new_row
  new_row-IsPublishable now b incoming h = record {
    node_id = h.node_id;
    public_url = h.public_url;
    pay_to = h.pay_to;
    leases = h.leases;
  }

  on_conflict-IsPublishable :
      (old row : NodeRow)
      → IsPublishable protocol_of old
      → IsPublishable protocol_of row
      → IsPublishable protocol_of (on_conflict old row)
  unfolding on_conflict
  on_conflict-IsPublishable old row h k = record {
    node_id = h.node_id;
    public_url = k.public_url;
    pay_to = k.pay_to;
    leases = k.leases;
  }

  upsert-All :
      (row : NodeRow) (t : Nodes)
      → IsPublishable protocol_of row
      → All (IsPublishable protocol_of) t
      → All (IsPublishable protocol_of) (upsert row t)
  unfolding upsert
  upsert-All row [] k h = (k, tt)
  upsert-All row (r ∷ t) k h = elim (Bool-cases (r.node_id === row.node_id)) [
    | inl same ↦ rw same (on_conflict-IsPublishable r row h.0 k, h.1)
    | inr other ↦ rw other (h.0, upsert-All row t k h.1)
  ]

  withdrawn-IsPublishable :
      (b : Bool) (r : NodeRow)
      → IsPublishable protocol_of r
      → IsPublishable protocol_of (if b then record r { withdrawn = true } else r)
  withdrawn-IsPublishable true r h = record {
    node_id = h.node_id;
    public_url = h.public_url;
    pay_to = h.pay_to;
    leases = h.leases;
  }
  withdrawn-IsPublishable false r h = h

  set_withdrawn-All :
      (id : Text) (t : Nodes)
      → All (IsPublishable protocol_of) t
      → All (IsPublishable protocol_of) (set_withdrawn id t)
  unfolding set_withdrawn
  set_withdrawn-All id [] h = tt
  set_withdrawn-All id (r ∷ t) h =
      (withdrawn-IsPublishable (r.node_id === id) r h.0, set_withdrawn-All id t h.1)

  apply_heartbeat-IsValid :
      (result : HeartbeatResult) (now : ℕ) (b : Heartbeat) (incoming : Text) (t : Nodes)
      → IsSound protocol_of b
      → IsValid protocol_of t
      → IsValid protocol_of (apply_heartbeat result now b incoming t)
  unfolding apply_heartbeat
  apply_heartbeat-IsValid HeartbeatResult.wrong_token now b incoming t k h = h
  apply_heartbeat-IsValid _ now b incoming t k h =
      let row = new_row now b incoming in
      (
        upsert-HasDistinctIds row t h.0,
        upsert-All row t (new_row-IsPublishable now b incoming k) h.1,
      )

  apply_withdraw-IsValid :
      (result : WithdrawResult) (id : Text) (t : Nodes)
      → IsValid protocol_of t
      → IsValid protocol_of (apply_withdraw result id t)
  unfolding apply_withdraw
  apply_withdraw-IsValid WithdrawResult.withdrawn id t h =
      (set_withdrawn-HasDistinctIds id t h.0, set_withdrawn-All id t h.1)
  apply_withdraw-IsValid _ id t h = h

module _ {Body : Type 0} (p : Platform Body) where
  safe_parse-IsSound :
      (body : Body) (b : Heartbeat) → safe_parse p body ≡ some b → IsSound p.protocol_of b
  unfolding safe_parse
  safe_parse-IsSound body b e = elim (Option-cases (p.shape body)) [
    | inl missing ↦ cc
    | inr (b', shaped) ↦ heartbeat_schema-IsSound p.protocol_of b (ground (arith, shaped))
  ]

  post_heartbeat-IsValid :
      (now : ℕ) (authorization : Option Text) (body : Body) (t : Nodes)
      → IsValid p.protocol_of t
      → IsValid p.protocol_of (post_heartbeat p now authorization body t).1
  unfolding post_heartbeat record_heartbeat
  post_heartbeat-IsValid now authorization body t h =
      elim (Option-cases (bearer_token authorization)) [
        | inl e ↦ rw (e, post_heartbeat) h
        | inr (token, e) ↦ elim (Option-cases (safe_parse p body)) [
          | inl e' ↦ rw (e, e', post_heartbeat) h
          | inr (b, e') ↦
              rw (e, e', post_heartbeat)
                (apply_heartbeat-IsValid p.protocol_of (claim (p.sha256 token) (find b.node_id t))
                  now b (p.sha256 token) t (safe_parse-IsSound body b e') h)
        ]
      ]

  post_offline-IsValid :
      (id : Text) (authorization : Option Text) (t : Nodes)
      → IsValid p.protocol_of t
      → IsValid p.protocol_of (post_offline p id authorization t).1
  unfolding post_offline withdraw_node
  post_offline-IsValid id authorization t h = elim (Option-cases (bearer_token authorization)) [
    | inl e ↦ rw (e, post_offline) h
    | inr (token, e) ↦
        rw (e, post_offline)
          (apply_withdraw-IsValid p.protocol_of (decide_withdraw (p.sha256 token) (find id t)) id t
            h)
  ]

  -- Every request keeps the table valid, whatever body it brings.
  pub handle-IsValid :
      (now : ℕ) (request : Request Body) (t : Nodes)
      → IsValid p.protocol_of t
      → IsValid p.protocol_of (handle p now request t).1
  unfolding handle
  handle-IsValid now (heartbeat authorization body) t h =
      post_heartbeat-IsValid now authorization body t h
  handle-IsValid now (offline id authorization) t h = post_offline-IsValid id authorization t h
  handle-IsValid now health t h = h
  handle-IsValid now _ t h = h

  serve-IsValid_from :
      (requests : List (ℕ × Request Body)) (t : Nodes)
      → IsValid p.protocol_of t
      → IsValid p.protocol_of (serve p requests t)
  unfolding serve
  serve-IsValid_from [] t h = h
  serve-IsValid_from ((now, request) ∷ rest) t h =
      serve-IsValid_from rest (handle p now request t).1 (handle-IsValid now request t h)

  -- From an empty table, any requests at all leave one row to an id, each with a public URL of the
  -- web, an account id of three numbers and bounded terms.
  pub serve-IsValid :
      (requests : List (ℕ × Request Body)) → IsValid p.protocol_of (serve p requests [])
  serve-IsValid requests = serve-IsValid_from requests [] (tt, tt)
