-- ===== src/Registry/Server/Presence.antt =====
-- What a node's own calls do to its listing.
use mach.Base.{
  ℕ, ◌+◌, ◌*◌, ◌<◌, ◌≡◌, ◌≢◌, refl, ap, true, false, Option, none, some, arith, Option-cases, inl,
  inr,
}
use mach.Js.Text.{Text}
use mach.Js.Text.Laws.{eq_refl}
use mach.Types.Node.{NodeListing}
use mach.Registry.Validate.{Heartbeat}
use mach.Registry.Store.{
  NodeRow, Nodes, HeartbeatResult, WithdrawResult, find, new_row, on_conflict, set_withdrawn, claim,
  apply_heartbeat, decide_withdraw, apply_withdraw, record_heartbeat, withdraw_node, is_online,
  to_listing, get_node, online_window_seconds,
}
use mach.Registry.Store.Table.{
  merged, new_row-node_id, find-node_id, find-upsert, find-set_withdrawn,
}
use mach.Registry.Server.{
  Platform, refused, gone, foreign_token, heartbeat_reply, offline_reply, bearer_token, safe_parse,
  post_heartbeat, post_offline,
}

-- The listing shows what the heartbeat said, and is online.
pub record Shows (b : Heartbeat) (l : NodeListing) : Type 0 where
  pub online : l.online ≡ true
  pub node_id : l.node_id ≡ b.node_id
  pub public_url : l.public_url ≡ b.public_url
  pub pay_to : l.pay_to ≡ b.pay_to
  pub paused : l.paused ≡ b.paused
  pub leases : l.leases ≡ b.leases

-- The window is measured from the last heartbeat.
abbrev pub InWindow : ℕ → ℕ → Type 0
InWindow now later = later < now + online_window_seconds * 1000000

merged-Shows :
    (now later : ℕ) (b : Heartbeat) (incoming : Text) (o : Option NodeRow)
    → (old_id : (r : NodeRow) → o ≡ some r → r.node_id ≡ b.node_id) → InWindow now later
    → Shows b (to_listing later (merged (new_row now b incoming) o))
unfolding to_listing is_online new_row on_conflict
merged-Shows now later b incoming none same h = record {
  online = ground arith;
  node_id = refl;
  public_url = refl;
  pay_to = refl;
  paused = refl;
  leases = refl;
}
merged-Shows now later b incoming (some old) same h = record {
  online = ground arith;
  node_id = same old refl;
  public_url = refl;
  pay_to = refl;
  paused = refl;
  leases = refl;
}

get_node_found :
    (now : ℕ) (id : Text) (t : Nodes) (r : NodeRow)
    → find id t ≡ some r
    → get_node now id t ≡ some (to_listing now r)
unfolding get_node
get_node_found now id t r e = rw (e, get_node)

apply_heartbeat-find :
    (result : HeartbeatResult) (now : ℕ) (b : Heartbeat) (incoming : Text) (t : Nodes)
    → result ≢ HeartbeatResult.wrong_token
    → find b.node_id (apply_heartbeat result now b incoming t)
      ≡ some (merged (new_row now b incoming) (find b.node_id t))
unfolding apply_heartbeat
apply_heartbeat-find HeartbeatResult.wrong_token now b incoming t h = absurd (h refl)
apply_heartbeat-find _ now b incoming t h = rw (
  find-upsert b.node_id (new_row now b incoming) t,
  new_row-node_id now b incoming,
  eq_refl b.node_id,
)

decided_withdrawn :
    (id incoming : Text) (o : Option NodeRow)
    → offline_reply id (decide_withdraw incoming o) ≡ gone id
    → (decide_withdraw incoming o ≡ WithdrawResult.withdrawn) × ((r : NodeRow) × (o ≡ some r))
unfolding decide_withdraw
decided_withdrawn id incoming none h = cc
decided_withdrawn id incoming (some r) h = (ground arith, (r, refl))

find-set_withdrawn_self :
    (id : Text) (t : Nodes) (r : NodeRow)
    → find id t ≡ some r
    → find id (set_withdrawn id t) ≡ some (record r { withdrawn = true })
find-set_withdrawn_self id t r e = rw (find-set_withdrawn id id t, eq_refl id, e)

withdrawn-offline :
    (now : ℕ) (r : NodeRow) → (to_listing now (record r { withdrawn = true })).online ≡ false
unfolding to_listing is_online
withdrawn-offline now r = refl

withdraw_hides :
    (now : ℕ) (id incoming : Text) (t : Nodes)
    → offline_reply id (decide_withdraw incoming (find id t)) ≡ gone id
    → (l : NodeListing) × (get_node now id
          (apply_withdraw (decide_withdraw incoming (find id t)) id t)
        ≡ some l)
      × (l.online ≡ false)
unfolding apply_withdraw
withdraw_hides now id incoming t h =
    let (decided, (r, found)) = decided_withdrawn id incoming (find id t) h in
    let r' : NodeRow = record r { withdrawn = true } in
    (
      to_listing now r',
      rw decided
          (get_node_found now id (set_withdrawn id t) r' (find-set_withdrawn_self id t r found)),
      withdrawn-offline now r,
    )

module _ {Body : Type 0} (p : Platform Body) where
  -- A heartbeat that parses and is not refused for its token is what the listing shows for the
  -- next ninety seconds: online, with its URL, account, pause flag and terms.
  pub post_heartbeat-Shows :
      (now later : ℕ) (authorization : Option Text) (body : Body) (token : Text) (b : Heartbeat)
      (t : Nodes)
      → bearer_token authorization ≡ some token
      → safe_parse p body ≡ some b
      → (post_heartbeat p now authorization body t).0 ≢ foreign_token
      → InWindow now later
      → (l : NodeListing) × (get_node later b.node_id (post_heartbeat p now authorization body t).1
          ≡ some l)
        × Shows b l
  unfolding post_heartbeat record_heartbeat
  post_heartbeat-Shows now later authorization body token b t e e' accepted h =
      let incoming = p.sha256 token in
      let result = claim incoming (find b.node_id t) in
      let row = merged (new_row now b incoming) (find b.node_id t) in
      let fits : result ≢ HeartbeatResult.wrong_token =
        λ wrong. accepted (rw (e, e', post_heartbeat) (ap (heartbeat_reply b.node_id) wrong)) in
      (
        to_listing later row,
        rw (e, e', post_heartbeat)
            (get_node_found later b.node_id (apply_heartbeat result now b incoming t) row
              (apply_heartbeat-find result now b incoming t fits)),
        merged-Shows now later b incoming (find b.node_id t) (find-node_id b.node_id t) h,
      )

  -- A heartbeat that is refused, for whatever reason, changes nothing.
  pub post_heartbeat_refused :
      (now : ℕ) (authorization : Option Text) (body : Body) (t : Nodes) {code : ℕ} {why : Text}
      → (post_heartbeat p now authorization body t).0 ≡ refused code why
      → (post_heartbeat p now authorization body t).1 ≡ t
  unfolding post_heartbeat record_heartbeat apply_heartbeat
  post_heartbeat_refused now authorization body t h = ground arith

  -- A node whose goodbye is accepted is listed, and as offline at every later time.
  pub post_offline_hides :
      (now : ℕ) (id : Text) (authorization : Option Text) (t : Nodes)
      → (post_offline p id authorization t).0 ≡ gone id
      → (l : NodeListing) × (get_node now id (post_offline p id authorization t).1 ≡ some l)
        × (l.online ≡ false)
  unfolding post_offline withdraw_node
  post_offline_hides now id authorization t h = elim (Option-cases (bearer_token authorization)) [
    | inl e ↦ absurd (cc (rw (e, post_offline) at h))
    | inr (token, e) ↦
        rw (e, post_offline) (withdraw_hides now id (p.sha256 token) t (rw (e, post_offline) at h))
  ]
