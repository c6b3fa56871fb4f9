-- ===== src/Registry/Server/Ownership.antt =====
-- Who may change a listing, over any sequence of requests.
use mach.Base.{
  ℕ, ◌≡◌, ◌≢◌, ◌∙◌, refl, ap, false, All, Option, none, some, List, [], ◌∷◌, Bool-cases,
  Option-cases, inl, inr,
}
use mach.Js.Text.{Text, ◌===◌}
use mach.Js.Text.Laws.{eq_sound}
use mach.Registry.Validate.{Heartbeat}
use mach.Registry.Store.{
  NodeRow, Nodes, HeartbeatResult, WithdrawResult, find, new_row, upsert, claim, apply_heartbeat,
  decide_withdraw, apply_withdraw, record_heartbeat, withdraw_node,
}
use mach.Registry.Store.Token.{tokens_match, IsAscii, tokens_match_iff}
use mach.Registry.Store.Table.{new_row-node_id, find-upsert, find-set_withdrawn}
use mach.Registry.Server.{
  Platform, Request, health, heartbeat, offline, bearer_token, safe_parse, post_heartbeat,
  post_offline, handle, serve,
}

-- The listing that a request acts on and the token that it shows.
abbrev pub Act : Type 0
Act = Option (Text × Text)

abbrev with_token : Text → Option Text → Act
with_token id none = none
with_token id (some token) = some (id, token)

abbrev with_body : Option Heartbeat → Option Text → Act
with_body none token = none
with_body (some b) token = with_token b.node_id token

claim_wrong :
    (incoming : Text) (r : NodeRow)
    → tokens_match r.token_sha256 incoming ≡ false
    → claim incoming (some r) ≡ HeartbeatResult.wrong_token
unfolding claim
claim_wrong incoming r h = rw h

decide_withdraw_wrong :
    (incoming : Text) (r : NodeRow)
    → tokens_match r.token_sha256 incoming ≡ false
    → decide_withdraw incoming (some r) ≡ WithdrawResult.wrong_token
unfolding decide_withdraw
decide_withdraw_wrong incoming r h = rw h

apply_heartbeat_wrong :
    (now : ℕ) (b : Heartbeat) (incoming : Text) (t : Nodes)
    → apply_heartbeat HeartbeatResult.wrong_token now b incoming t ≡ t
unfolding apply_heartbeat
apply_heartbeat_wrong now b incoming t = refl

apply_withdraw_wrong : (id : Text) (t : Nodes) → apply_withdraw WithdrawResult.wrong_token id t ≡ t
unfolding apply_withdraw
apply_withdraw_wrong id t = refl

upsert_other :
    (id : Text) (now : ℕ) (b : Heartbeat) (incoming : Text) (t : Nodes)
    → (b.node_id === id) ≡ false
    → find id (upsert (new_row now b incoming) t) ≡ find id t
upsert_other id now b incoming t h =
    rw (find-upsert id (new_row now b incoming) t, new_row-node_id now b incoming, h)

-- A heartbeat for another id changes nothing of this one.
pub apply_heartbeat-find_other :
    (id : Text) (result : HeartbeatResult) (now : ℕ) (b : Heartbeat) (incoming : Text) (t : Nodes)
    → (b.node_id === id) ≡ false
    → find id (apply_heartbeat result now b incoming t) ≡ find id t
unfolding apply_heartbeat
apply_heartbeat-find_other id HeartbeatResult.wrong_token now b incoming t h = refl
apply_heartbeat-find_other id _ now b incoming t h = upsert_other id now b incoming t h

pub apply_withdraw-find_other :
    (id : Text) (result : WithdrawResult) (key : Text) (t : Nodes)
    → (key === id) ≡ false
    → find id (apply_withdraw result key t) ≡ find id t
unfolding apply_withdraw
apply_withdraw-find_other id WithdrawResult.withdrawn key t h = rw (find-set_withdrawn id key t, h)
apply_withdraw-find_other id _ key t h = refl

module _ {Body : Type 0} (p : Platform Body) where
  unfoldable pub act : Request Body → Act
  act (heartbeat authorization body) = with_body (safe_parse p body) (bearer_token authorization)
  act (offline id authorization) = with_token id (bearer_token authorization)
  act _ = none

  -- No token for the listing, or one with another digest.
  abbrev pub IsForeign : Text → NodeRow → Act → Type 0
  IsForeign id r a = (token : Text) → a ≡ some (id, token) → r.token_sha256 ≢ p.sha256 token

  -- Digests are hexadecimal.
  abbrev pub HasAsciiDigests : Type 0
  HasAsciiDigests = (token : Text) → IsAscii (p.sha256 token)

  module _ (hex : HasAsciiDigests) where
    wrong_token :
        (token : Text) (r : NodeRow)
        → IsAscii r.token_sha256
        → r.token_sha256 ≢ p.sha256 token
        → tokens_match r.token_sha256 (p.sha256 token) ≡ false
    wrong_token token r ascii ne =
        elim (Bool-cases (tokens_match r.token_sha256 (p.sha256 token))) [
          | inl e ↦
              absurd (ne ((tokens_match_iff r.token_sha256 (p.sha256 token) ascii (hex token)).0 e))
          | inr e ↦ e
        ]

    record_heartbeat_foreign :
        (id : Text) (r : NodeRow) (now : ℕ) (b : Heartbeat) (token : Text) (t : Nodes)
        → find id t ≡ some r
        → IsAscii r.token_sha256
        → (b.node_id ≡ id → r.token_sha256 ≢ p.sha256 token)
        → find id (record_heartbeat p.sha256 now b token t).1 ≡ some r
    unfolding record_heartbeat
    record_heartbeat_foreign id r now b token t found ascii foreign =
        elim (Bool-cases (b.node_id === id)) [
          | inl same ↦
              let e : b.node_id ≡ id = eq_sound b.node_id id same in
              rw
                (
                  ap (λ k. find k t) e,
                  found,
                  claim_wrong (p.sha256 token) r (wrong_token token r ascii (foreign e)),
                  apply_heartbeat_wrong now b (p.sha256 token) t,
                )
                found
          | inr other ↦
              apply_heartbeat-find_other id (claim (p.sha256 token) (find b.node_id t)) now b
                (p.sha256 token) t other
              ∙ found
        ]

    withdraw_node_foreign :
        (id : Text) (r : NodeRow) (key token : Text) (t : Nodes)
        → find id t ≡ some r
        → IsAscii r.token_sha256
        → (key ≡ id → r.token_sha256 ≢ p.sha256 token)
        → find id (withdraw_node p.sha256 key token t).1 ≡ some r
    unfolding withdraw_node
    withdraw_node_foreign id r key token t found ascii foreign = elim (Bool-cases (key === id)) [
      | inl same ↦
          let e : key ≡ id = eq_sound key id same in
          rw
            (
              ap (λ k. find k t) e,
              found,
              decide_withdraw_wrong (p.sha256 token) r (wrong_token token r ascii (foreign e)),
              apply_withdraw_wrong key t,
            )
            found
      | inr other ↦
          apply_withdraw-find_other id (decide_withdraw (p.sha256 token) (find key t)) key t other
          ∙ found
    ]

    -- A request that does not show the owner's token leaves the listing as it was.
    pub handle-find_foreign :
        (id : Text) (r : NodeRow) (now : ℕ) (request : Request Body) (t : Nodes)
        → find id t ≡ some r
        → IsAscii r.token_sha256
        → IsForeign id r (act request)
        → find id (handle p now request t).1 ≡ some r
    unfolding handle act
    handle-find_foreign id r now (heartbeat authorization body) t found ascii foreign =
        elim (Option-cases (bearer_token authorization)) [
          | inl e ↦ rw (e, post_heartbeat) found
          | inr (token, e) ↦ elim (Option-cases (safe_parse p body)) [
            | inl e' ↦ rw (e, e', post_heartbeat) found
            | inr (b, e') ↦
                rw (e, e', post_heartbeat)
                  (record_heartbeat_foreign id r now b token t found ascii
                    (λ same. foreign token (rw (e', e, act) (ap (λ k. some (k, token)) same))))
          ]
        ]
    handle-find_foreign id r now (offline key authorization) t found ascii foreign =
        elim (Option-cases (bearer_token authorization)) [
          | inl e ↦ rw (e, post_offline) found
          | inr (token, e) ↦
              rw (e, post_offline)
                (withdraw_node_foreign id r key token t found ascii
                  (λ same. foreign token (rw (e, act) (ap (λ k. some (k, token)) same))))
        ]
    handle-find_foreign id r now health t found ascii foreign = found
    handle-find_foreign id r now _ t found ascii foreign = found

    -- However many requests come without the owner's token, the listing stays as it was, provided
    -- digests are ASCII and no token shown has the owner's digest.
    pub serve-find_foreign :
        (id : Text) (r : NodeRow) (requests : List (ℕ × Request Body)) (t : Nodes)
        → find id t ≡ some r
        → IsAscii r.token_sha256
        → All (λ q. IsForeign id r (act q.1)) requests
        → find id (serve p requests t) ≡ some r
    unfolding serve
    serve-find_foreign id r [] t found ascii foreign = found
    serve-find_foreign id r ((now, request) ∷ rest) t found ascii foreign =
        serve-find_foreign id r rest (handle p now request t).1
          (handle-find_foreign id r now request t found ascii foreign.0) ascii foreign.1
