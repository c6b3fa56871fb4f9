-- ===== src/Registry/Store/Race.antt =====
-- `recordHeartbeat` awaits its SELECT before it sends its INSERT, so requests interleave between
-- the two. A call in flight holds what its SELECT decided.
use mach.Base.{
  ℕ, ◌≡◌, ◌∙◌, refl, ap, Bool, true, false, Option, none, some, List, [], ◌∷◌, ◌++◌, if◌then◌else◌,
}
use mach.Js.Text.{Text, ◌===◌}
use mach.Js.Text.Laws.{eq_refl}
use mach.Registry.Validate.{Heartbeat}
use mach.Registry.Store.Token.{tokens_match}
use mach.Registry.Store.Table.{new_row-node_id}
use mach.Registry.Store.{
  NodeRow, Nodes, HeartbeatResult, WithdrawResult, find, new_row, on_conflict, upsert, claim,
  apply_heartbeat, decide_withdraw, apply_withdraw,
}
use mach.Registry.Store.Table.{merged, marked, find-upsert, find-set_withdrawn}

-- A call between its two statements, with what the first decided.
pub data InFlight : Type 0 where
  beating : Heartbeat → (incoming : Text) → HeartbeatResult → InFlight
  leaving : (id : Text) → WithdrawResult → InFlight

pub record Db : Type 0 where
  pub table : Nodes
  pub waiting : List InFlight

-- The second statement of a call.
abbrev pub finish : ℕ → InFlight → Nodes → Nodes
finish now (beating b incoming result) t = apply_heartbeat result now b incoming t
finish now (leaving id result) t = apply_withdraw result id t

abbrev pub heartbeat_call : Heartbeat → Text → Nodes → InFlight
heartbeat_call b incoming t = beating b incoming (claim incoming (find b.node_id t))

abbrev pub withdraw_call : Text → Text → Nodes → InFlight
withdraw_call id incoming t = leaving id (decide_withdraw incoming (find id t))

-- One statement: the SELECT of a call that begins, or the write of any call in flight.
pub data Step : Db → Db → Type 0 where
  select_heartbeat :
      (s : Db) (b : Heartbeat) (incoming : Text)
      → Step s (record s { waiting = heartbeat_call b incoming s.table ∷ s.waiting })
  select_withdraw :
      (s : Db) (id incoming : Text)
      → Step s (record s { waiting = withdraw_call id incoming s.table ∷ s.waiting })
  write :
      (s : Db) (earlier later : List InFlight) (c : InFlight) (now : ℕ)
      → s.waiting ≡ earlier ++ (c ∷ later)
      → Step s (record { table = finish now c s.table; waiting = earlier ++ later })

pub data Reach (s : Db) : Db → Type 0 where
  here : Reach s s
  next : {t u : Db} → Reach s t → Step t u → Reach s u

-- The row of an id keeps the digest of the token and the time at which it was first seen.
abbrev pub Keeps : NodeRow → Option NodeRow → Type 0
Keeps r none = ⊥
Keeps r (some r') =
    (r'.node_id ≡ r.node_id)
    × (r'.token_sha256 ≡ r.token_sha256)
    × (r'.first_seen_at ≡ r.first_seen_at)

Keeps-on_conflict :
    (r old row : NodeRow) → Keeps r (some old) → Keeps r (some (on_conflict old row))
unfolding on_conflict
Keeps-on_conflict r old row h = h

Keeps-upsert :
    (id : Text) (r row : NodeRow) (t : Nodes)
    → Keeps r (find id t)
    → Keeps r (find id (upsert row t))
Keeps-upsert id r row t h = rw (find-upsert id row t) (go (row.node_id === id) (find id t) h)
  where
    go :
        (b : Bool) (o : Option NodeRow) → Keeps r o → Keeps r (if b then some (merged row o) else o)
    go false o k = k
    go true none k = absurd k
    go true (some old) k = Keeps-on_conflict r old row k

Keeps-apply_heartbeat :
    (id : Text) (r : NodeRow) (result : HeartbeatResult) (now : ℕ) (b : Heartbeat) (incoming : Text)
    (t : Nodes)
    → Keeps r (find id t)
    → Keeps r (find id (apply_heartbeat result now b incoming t))
unfolding apply_heartbeat
Keeps-apply_heartbeat id r HeartbeatResult.wrong_token now b incoming t h = h
Keeps-apply_heartbeat id r _ now b incoming t h = Keeps-upsert id r (new_row now b incoming) t h

Keeps-marked :
    (r : NodeRow) (b : Bool) (o : Option NodeRow) → Keeps r o → Keeps r (if b then marked o else o)
Keeps-marked r false o h = h
Keeps-marked r true none h = absurd h
Keeps-marked r true (some old) h = h

Keeps-apply_withdraw :
    (id : Text) (r : NodeRow) (result : WithdrawResult) (key : Text) (t : Nodes)
    → Keeps r (find id t)
    → Keeps r (find id (apply_withdraw result key t))
unfolding apply_withdraw
Keeps-apply_withdraw id r WithdrawResult.withdrawn key t h =
    rw (find-set_withdrawn id key t) (Keeps-marked r (key === id) (find id t) h)
Keeps-apply_withdraw id r _ key t h = h

Keeps-finish :
    (id : Text) (r : NodeRow) (now : ℕ) (c : InFlight) (t : Nodes)
    → Keeps r (find id t)
    → Keeps r (find id (finish now c t))
Keeps-finish id r now (beating b incoming result) t h =
    Keeps-apply_heartbeat id r result now b incoming t h
Keeps-finish id r now (leaving key result) t h = Keeps-apply_withdraw id r result key t h

Step-Keeps :
    (id : Text) (r : NodeRow) {s u : Db}
    → Step s u
    → Keeps r (find id s.table)
    → Keeps r (find id u.table)
Step-Keeps id r (select_heartbeat s b incoming) h = h
Step-Keeps id r (select_withdraw s key incoming) h = h
Step-Keeps id r (write s earlier later c now e) h = Keeps-finish id r now c s.table h

-- However the statements of concurrent calls interleave, a listing stays in the table, with the
-- token that first claimed it and the time at which it was first seen.
pub Reach-Keeps :
    (id : Text) (r : NodeRow) {s u : Db}
    → Reach s u
    → Keeps r (find id s.table)
    → Keeps r (find id u.table)
Reach-Keeps id r here h = h
Reach-Keeps id r (next steps st) h = Step-Keeps id r st (Reach-Keeps id r steps h)

abbrev fresh : (b b' : Heartbeat) (incoming incoming' : Text) (now now' : ℕ) → Nodes → Nodes
fresh b b' incoming incoming' now now' t =
    upsert (new_row now' b' incoming') (upsert (new_row now b incoming) t)

find-upsert_self :
    (id : Text) (row : NodeRow) (t : Nodes)
    → row.node_id ≡ id
    → find id (upsert row t) ≡ some (merged row (find id t))
find-upsert_self id row t e = rw (find-upsert id row t, ap (λ k. k === id) e, eq_refl id)

find-fresh :
    (b b' : Heartbeat) (incoming incoming' : Text) (now now' : ℕ) (t : Nodes)
    → find b.node_id t ≡ none
    → b'.node_id ≡ b.node_id
    → find b.node_id (fresh b b' incoming incoming' now now' t)
      ≡ some (on_conflict (new_row now b incoming) (new_row now' b' incoming'))
find-fresh b b' incoming incoming' now now' t unclaimed same =
    let row = new_row now b incoming in
    let row' = new_row now' b' incoming' in
    rw (
      find-upsert_self b.node_id row' (upsert row t) (new_row-node_id now' b' incoming' ∙ same),
      find-upsert_self b.node_id row t (new_row-node_id now b incoming),
      unclaimed,
    )

-- A call whose SELECT comes after the INSERT of the first is refused.
refused_later :
    (b b' : Heartbeat) (incoming incoming' : Text) (now : ℕ) (t : Nodes)
    → find b.node_id t ≡ none
    → b'.node_id ≡ b.node_id
    → tokens_match incoming incoming' ≡ false
    → heartbeat_call b' incoming' (finish now (heartbeat_call b incoming t) t)
      ≡ beating b' incoming' HeartbeatResult.wrong_token
unfolding claim apply_heartbeat new_row
refused_later b b' incoming incoming' now t unclaimed same apart =
    let row = new_row now b incoming in
    let one = finish now (heartbeat_call b incoming t) t in
    let put : one ≡ upsert row t = rw unclaimed refl in
    let there : find b'.node_id one ≡ some row =
      ap (λ k. find k one) same
      ∙ (ap (find b.node_id) put
          ∙ (find-upsert_self b.node_id row t (new_row-node_id now b incoming)
              ∙ rw unclaimed refl)) in
    rw (there, apart) refl

-- Both calls decided that they were the first.
finish-unclaimed :
    (b b' : Heartbeat) (incoming incoming' : Text) (now now' : ℕ) (t : Nodes)
    → find b.node_id t ≡ none
    → b'.node_id ≡ b.node_id
    → finish now' (heartbeat_call b' incoming' t) (finish now (heartbeat_call b incoming t) t)
      ≡ fresh b b' incoming incoming' now now' t
unfolding claim apply_heartbeat
finish-unclaimed b b' incoming incoming' now now' t unclaimed same =
    rw (ap (λ k. find k t) same, unclaimed)

first_call :
    (b : Heartbeat) (incoming : Text) (t : Nodes)
    → find b.node_id t ≡ none
    → heartbeat_call b incoming t ≡ beating b incoming HeartbeatResult.created
unfolding claim
first_call b incoming t unclaimed = rw unclaimed refl

abbrev pub idle : Nodes → Db
idle t = record { table = t; waiting = [] }

-- Two first heartbeats for one id whose SELECTs both run before either INSERT are both accepted as
-- the first, and the listing keeps the token of the one and takes the URL and the account of the
-- other, which is refused and changes nothing when its SELECT comes after the first one's INSERT,
-- for tokens whose digests do not match.
pub concurrent_claims :
    (b b' : Heartbeat) (incoming incoming' : Text) (now now' : ℕ) (t : Nodes)
    → find b.node_id t ≡ none
    → b'.node_id ≡ b.node_id
    → tokens_match incoming incoming' ≡ false
    → let call = heartbeat_call b incoming t in
      let call' = heartbeat_call b' incoming' t in
      let one = finish now call t in
      let both = finish now' call' one in
      (call ≡ beating b incoming HeartbeatResult.created)
      × (call' ≡ beating b' incoming' HeartbeatResult.created)
      × Reach (idle t) (idle both)
      × ((r : NodeRow) × (find b.node_id both ≡ some r)
          × (r.token_sha256 ≡ incoming)
          × (r.public_url ≡ b'.public_url)
          × (r.pay_to ≡ b'.pay_to))
      × (heartbeat_call b' incoming' one ≡ beating b' incoming' HeartbeatResult.wrong_token)
      × (finish now' (heartbeat_call b' incoming' one) one ≡ one)
unfolding new_row on_conflict claim apply_heartbeat
concurrent_claims b b' incoming incoming' now now' t unclaimed same apart =
    let call = heartbeat_call b incoming t in
    let call' = heartbeat_call b' incoming' t in
    (
      first_call b incoming t unclaimed,
      first_call b' incoming' t (ap (λ k. find k t) same ∙ unclaimed),
      next
          (next
            (next (next here (select_heartbeat (idle t) b incoming))
              (select_heartbeat (record { table = t; waiting = call ∷ [] }) b' incoming'))
            (write (record { table = t; waiting = call' ∷ call ∷ [] }) (call' ∷ []) [] call now
              refl))
          (write (record { table = finish now call t; waiting = call' ∷ [] }) [] [] call' now'
            refl),
      (
        on_conflict (new_row now b incoming) (new_row now' b' incoming'),
        ap (find b.node_id) (finish-unclaimed b b' incoming incoming' now now' t unclaimed same)
            ∙ find-fresh b b' incoming incoming' now now' t unclaimed same,
        refl,
        refl,
        refl,
      ),
      refused_later b b' incoming incoming' now t unclaimed same apart,
      ap (λ call. finish now' call (finish now (heartbeat_call b incoming t) t))
          (refused_later b b' incoming incoming' now t unclaimed same apart),
    )
