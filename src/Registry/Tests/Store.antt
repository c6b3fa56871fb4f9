-- ===== src/Registry/Tests/Store.antt =====
-- The store on the small registry.
use mathlib.Core.List.{Perm}
use mach.Base.{◌≡◌, refl, true, false, not, ◌||◌, none, some, [], ◌∷◌, keep}
use mach.Js.Text.{text, ◌===◌}
use mach.Registry.Store.Token.{tokens_match}
use mach.Registry.Store.{HeartbeatResult, NodeRow, find, new_row, select_nodes, is_online}
use mach.Registry.Store.Listing.{IsListed, select_nodes_lem}
use mach.Registry.Store.Race.{
  InFlight, beating, Db, Reach, Keeps, Reach-Keeps, concurrent_claims, here, next, select_heartbeat,
  write, idle, finish, heartbeat_call,
}
use mach.Registry.Tests.{digest, first_beat, second_beat, owned, table}

owned-found : find (text "gpu-1") table ≡ some owned
unfolding find text ◌===◌ new_row
owned-found = refl

select_nodes_lem_example :
    IsListed 2000 (select_nodes 2000 true table)
    × Perm (select_nodes 2000 true table) (keep (λ r. not true || is_online 2000 r) table)
select_nodes_lem_example = select_nodes_lem 2000 true table

-- A stranger's heartbeat for the node, between its statements and after them.
abbrev intruder : InFlight
intruder = heartbeat_call second_beat (digest (text "public")) table

abbrev written : Db
written = record { table = finish 2000 intruder table; waiting = [] }

intrusion : Reach (idle table) written
intrusion =
    next (next here (select_heartbeat (idle table) second_beat (digest (text "public"))))
      (write (record { table = table; waiting = intruder ∷ [] }) [] [] intruder 2000 refl)

kept : Keeps owned (find (text "gpu-1") table)
unfolding find text ◌===◌ new_row
kept = (refl, refl, refl)

Reach-Keeps_example : Keeps owned (find (text "gpu-1") written.table)
Reach-Keeps_example = Reach-Keeps (text "gpu-1") owned intrusion kept

unclaimed : find first_beat.node_id [] ≡ none
unfolding find
unclaimed = refl

strangers : tokens_match (text "one") (text "two") ≡ false
unfolding tokens_match text ◌===◌
strangers = refl

concurrent_claims_example :
    let call = heartbeat_call first_beat (text "one") [] in
    let call' = heartbeat_call second_beat (text "two") [] in
    let one = finish 10 call [] in
    let both = finish 20 call' one in
    (call ≡ beating first_beat (text "one") HeartbeatResult.created)
    × (call' ≡ beating second_beat (text "two") HeartbeatResult.created)
    × Reach (idle []) (idle both)
    × ((r : NodeRow) × (find first_beat.node_id both ≡ some r)
        × (r.token_sha256 ≡ text "one")
        × (r.public_url ≡ second_beat.public_url)
        × (r.pay_to ≡ second_beat.pay_to))
    × (heartbeat_call second_beat (text "two") one
        ≡ beating second_beat (text "two") HeartbeatResult.wrong_token)
    × (finish 20 (heartbeat_call second_beat (text "two") one) one ≡ one)
concurrent_claims_example =
    concurrent_claims first_beat second_beat (text "one") (text "two") 10 20 [] unclaimed refl
      strangers
