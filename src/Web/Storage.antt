-- ===== src/Web/Storage.antt =====
-- web/lib/session-store.ts: a bought session kept in the browser's localStorage, under a key for its
-- node. What JSON reads of a stored text is a `Stored`.
pub mod Keeping
use mach.Base.{
  ℕ, ◌+◌, ◌-◌, ◌*◌, Bool, true, false, not, Option, none, some, List, [], ◌∷◌, ◌++◌, keep,
  if◌then◌else◌, ltb,
}
use mach.Base.Int.{ℤ}
use mach.Js.Text.{Text, text, ◌===◌}
use mach.Types.Session.{SessionCreated, SettleState}

abbrev pub prefix : Text
prefix = text "mach402.session.v1."

abbrev pub max_age_ms : ℕ
max_age_ms = 24 * 60 * 60 * 1000

-- `SessionCreated` with what `SessionState` adds to it, each field optional.
pub record StoredSession : Type 0 where
  pub created : SessionCreated
  pub created_at : Option Text
  pub seconds_remaining : Option ℤ
  pub paid_seconds : Option ℤ
  pub gpu : Option Bool
  pub burned_tinybars : Option Text
  pub refunded_tinybars : Option Text
  pub settle_state : Option SettleState
  pub error : Option Text
  pub ended_remotely : Option Bool

-- A text that is no JSON or JSON `null`, on which reading throws; JSON of another shape; an envelope.
pub data Stored : Type 0 where
  broken misshapen : Stored
  envelope : (saved_at : ℕ) → StoredSession → Stored

pub record Item : Type 0 where
  pub key : Text
  pub value : Stored

-- `localStorage`: `blocked` where each of its calls throws, `full` where `setItem` does.
pub record Browser : Type 0 where
  pub items : List Item
  pub blocked : Bool
  pub full : Bool

abbrev pub key_for : Text → Text
key_for node_id = prefix ++ node_id

unfoldable pub get_item : Text → List Item → Option Stored
get_item key [] = none
get_item key (i ∷ items) = if i.key === key then some i.value else get_item key items

unfoldable pub remove_item : Text → List Item → List Item
remove_item key = keep (λ i. not (i.key === key))

unfoldable pub set_item : Text → Stored → List Item → List Item
set_item key value [] = record { key = key; value = value } ∷ []
set_item key value (i ∷ items) =
    let rest = set_item key value items in
    if i.key === key then record { key = key; value = value } ∷ items else i ∷ rest

abbrev pub forget : Text → Browser → Option StoredSession × Browser
forget node_id b = (none, record b { items = remove_item (key_for node_id) b.items })

-- What `loadSession` does with what it got; `now - saved_at` is negative for a clock set back.
unfoldable pub load_stored : ℕ → Text → Browser → Option Stored → Option StoredSession × Browser
load_stored now node_id b none = (none, b)
load_stored now node_id b (some broken) = (none, b)
load_stored now node_id b (some misshapen) = forget node_id b
load_stored now node_id b (some (envelope saved_at session)) =
    if ltb (saved_at + max_age_ms) now then forget node_id b else (some session, b)

unfoldable pub load_session : ℕ → Text → Browser → Option StoredSession × Browser
unfolding get_item load_stored
load_session now node_id b =
    if b.blocked then (none, b) else load_stored now node_id b (get_item (key_for node_id) b.items)

unfoldable pub save_session : ℕ → Text → StoredSession → Browser → Browser
unfolding set_item
save_session now node_id session b =
    if b.blocked
    then b
    else if b.full
    then b
    else record b { items = set_item (key_for node_id) (envelope now session) b.items }

unfoldable pub clear_session : Text → Browser → Browser
unfolding remove_item
clear_session node_id b =
    if b.blocked then b else record b { items = remove_item (key_for node_id) b.items }
