-- ===== src/Registry/Tests/Server.antt =====
-- The routes on the small registry.
use mach.Base.{
  Bool-cases, inl, inr, sym, ◌≡◌, ap, ◌∙◌, refl, ◌≢◌, true, false, Option, some, List, [], ◌∷◌, ℕ,
  All, arith,
}
use mach.Js.Text.{Text, text, ◌===◌, starts_with, trim}
use mach.Types.Node.{NodeListing}
use mach.Registry.Validate.{
  Heartbeat, heartbeat_schema, short_text, http_url, positive_to, nonnegative_to, nonnegative,
  gpu_schema, limits_schema, leases_schema, identity_schema,
}
use mach.Registry.Patterns.{
  is_digit, is_node_id, is_whole_amount, runs, is_hedera_id, is_network, is_evm_address,
}
use mach.Registry.Store.{
  HeartbeatResult, WithdrawResult, find, new_row, get_node, claim, record_heartbeat, withdraw_node,
  decide_withdraw,
}
use mach.Registry.Store.Token.{tokens_match, tokens_match_iff, IsAscii}
use mach.Registry.Server.{
  Request, heartbeat, offline, beat, gone, foreign_token, bearer_token, safe_parse, post_heartbeat,
  post_offline, serve,
}
use mach.Registry.Server.Ownership.{IsForeign, act, serve-find_foreign}
use mach.Registry.Server.Presence.{
  Shows, post_heartbeat-Shows, post_heartbeat_refused, post_offline_hides,
}
use mach.Registry.Server.Invariant.{IsValid, serve-IsValid}
use mach.Registry.Tests.{digest, digest-IsAscii, platform, second_beat, owned, table}

abbrev own_header : Option Text
own_header = some (text "Bearer secret")

abbrev foreign_header : Option Text
foreign_header = some (text "Bearer public")

abbrev attack : List (ℕ × Request Heartbeat)
attack =
    (2000, heartbeat foreign_header second_beat)
    ∷ (3000, offline (text "gpu-1") foreign_header)
    ∷ []

own_token : bearer_token own_header ≡ some (text "secret")
unfolding bearer_token text starts_with trim ◌===◌
own_token = refl

foreign_token_of : bearer_token foreign_header ≡ some (text "public")
unfolding bearer_token text starts_with trim ◌===◌
foreign_token_of = refl

parsed : safe_parse platform second_beat ≡ some second_beat
unfolding safe_parse heartbeat_schema short_text http_url positive_to nonnegative_to nonnegative
    gpu_schema limits_schema leases_schema identity_schema is_digit is_node_id is_whole_amount runs
    is_hedera_id is_network is_evm_address text starts_with ◌===◌
parsed = refl

differs : digest (text "secret") ≢ digest (text "public")
unfolding text
differs h = cc

IsForeign-to : IsForeign platform (text "gpu-1") owned (some (text "gpu-1", text "public"))
unfolding new_row
IsForeign-to token e h = let same : token ≡ text "public" = cc in differs (h ∙ ap digest same)

attack-IsForeign : All (λ q. IsForeign platform (text "gpu-1") owned (act platform q.1)) attack
unfolding act
attack-IsForeign =
    (rw (parsed, foreign_token_of) IsForeign-to, (rw foreign_token_of IsForeign-to, tt))

owned-IsAscii : IsAscii owned.token_sha256
unfolding new_row
owned-IsAscii = digest-IsAscii (text "secret")

found : find (text "gpu-1") table ≡ some owned
unfolding find text ◌===◌ new_row
found = refl

serve-find_foreign_example : find (text "gpu-1") (serve platform attack table) ≡ some owned
serve-find_foreign_example =
    serve-find_foreign platform digest-IsAscii (text "gpu-1") owned attack table found owned-IsAscii
      attack-IsForeign

serve-IsValid_example : IsValid platform.protocol_of (serve platform attack [])
serve-IsValid_example = serve-IsValid platform attack

-- The owner moves the node to another URL.
owner : tokens_match owned.token_sha256 (digest (text "secret")) ≡ true
unfolding new_row
owner =
    (tokens_match_iff (digest (text "secret")) (digest (text "secret"))
        (digest-IsAscii (text "secret")) (digest-IsAscii (text "secret"))).1
      refl

own_claim : claim (digest (text "secret")) (some owned) ≡ HeartbeatResult.updated
unfolding claim
own_claim = rw owner refl

foreign_claim : claim (digest (text "public")) (some owned) ≡ HeartbeatResult.wrong_token
unfolding claim new_row
foreign_claim = elim (Bool-cases (tokens_match owned.token_sha256 (digest (text "public")))) [
  | inl e ↦ absurd (
      differs (
        (tokens_match_iff owned.token_sha256 (digest (text "public")) owned-IsAscii
            (digest-IsAscii (text "public"))).0
          e))
  | inr e ↦ rw e refl
]

own_withdrawal : decide_withdraw (digest (text "secret")) (some owned) ≡ WithdrawResult.withdrawn
unfolding decide_withdraw
own_withdrawal = rw owner refl

moved : (post_heartbeat platform 2000 own_header second_beat table).0 ≡ beat (text "gpu-1") false 90
unfolding post_heartbeat record_heartbeat
moved = rw (own_token, parsed, post_heartbeat, found, own_claim) refl

moved_accepted : (post_heartbeat platform 2000 own_header second_beat table).0 ≢ foreign_token
moved_accepted h = let e : beat (text "gpu-1") false 90 ≡ foreign_token = sym moved ∙ h in cc

post_heartbeat-Shows_example :
    (l : NodeListing) × (get_node 3000
        (text "gpu-1")
        (post_heartbeat platform 2000 own_header second_beat table).1
      ≡ some l)
    × Shows second_beat l
post_heartbeat-Shows_example =
    post_heartbeat-Shows platform 2000 3000 own_header second_beat (text "secret") second_beat table
      own_token parsed moved_accepted (omega arith)

-- A stranger tries the same.
stranger : (post_heartbeat platform 2000 foreign_header second_beat table).0 ≡ foreign_token
unfolding post_heartbeat record_heartbeat
stranger = rw (foreign_token_of, parsed, post_heartbeat, found, foreign_claim) refl

post_heartbeat_refused_example :
    (post_heartbeat platform 2000 foreign_header second_beat table).1 ≡ table
post_heartbeat_refused_example =
    post_heartbeat_refused platform 2000 foreign_header second_beat table stranger

-- The owner says goodbye.
left : (post_offline platform (text "gpu-1") own_header table).0 ≡ gone (text "gpu-1")
unfolding post_offline withdraw_node
left = rw (own_token, post_offline, found, own_withdrawal) refl

post_offline_hides_example :
    (l : NodeListing) × (get_node 2000
        (text "gpu-1")
        (post_offline platform (text "gpu-1") own_header table).1
      ≡ some l)
    × (l.online ≡ false)
post_offline_hides_example = post_offline_hides platform 2000 (text "gpu-1") own_header table left
