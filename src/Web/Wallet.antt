-- ===== src/Web/Wallet.antt =====
-- web/components/wallet/wallet-provider.tsx, web/lib/wallet/types.ts and
-- web/components/rent/connect-wallet.tsx: the connection to a wallet, as it is shown, and the connector
-- that the browser remembers. What a connector answers comes from outside; the connectors let go of a
-- wallet at once, and the page stays mounted.
pub mod Memory
pub mod Remembered
use mach.Base.{
  ℕ, Bool, true, false, not, ◌&&◌, ◌||◌, Option, none, some, List, [], ◌∷◌, ◌++◌, if◌then◌else◌,
  map,
}
use mach.Js.Text.{Text, text, ◌===◌}

pub record Connector : Type 0 where
  pub id : Text
  pub label : Text
  pub available : Bool
  pub unavailable_reason : Option Text
  pub uses_local_key : Bool

pub data WalletState : Type 0 where
  disconnected : WalletState
  connecting : (connector_id : Text) → WalletState
  connected : (connector_id account_id : Text) → WalletState
  error : (message : Text) → WalletState

-- A call of a connector that has not answered: `connect` or `restore`.
pub data Pending : Type 0 where
  connect restore : (connector_id : Text) → Pending

-- `remembered` is the item of `localStorage`, whose calls all throw where it is `blocked`.
pub record Page : Type 0 where
  pub state : WalletState
  pub remembered : Option Text
  pub blocked : Bool
  pub restored : Bool
  pub pending : Option Pending

unfoldable pub remember_connector : Text → Page → Page
remember_connector id p = if p.blocked then p else record p { remembered = some id }

unfoldable pub forget_connector : Page → Page
forget_connector p = if p.blocked then p else record p { remembered = none }

unfoldable pub last_connector : Page → Option Text
last_connector p = if p.blocked then none else p.remembered

unfoldable pub find_connector : Text → List Connector → Option Connector
find_connector id [] = none
find_connector id (c ∷ cs) = if c.id === id then some c else find_connector id cs

pub data Answer : Type 0 where
  signer : (account_id : Text) → Answer
  nothing : Answer
  threw : (message : Text) → Answer

-- `connect`, until its connector answers
unfoldable pub connect_start : List Connector → Text → Page → Page
unfolding find_connector
connect_start connectors id p = elim (find_connector id connectors) [
  | none ↦ record p { state = error (text "no connector called " ++ id) }
  | some c ↦ record p { state = connecting id; pending = some (connect id) }
]

unfoldable pub connect_finish : Text → Answer → Page → Page
unfolding remember_connector
connect_finish id (signer account_id) p = record (remember_connector id p) {
  state = connected id account_id;
  pending = none;
}
connect_finish id nothing p = record p { pending = none }
connect_finish id (threw message) p = record p { state = error message; pending = none }

unfoldable pub disconnect : Page → Page
unfolding forget_connector
disconnect p = record (forget_connector p) { state = disconnected }

-- The effect of the first rendering, after its flag.
unfoldable pub restore_from : List Connector → Page → Page
unfolding last_connector find_connector forget_connector
restore_from connectors p = elim (last_connector p) [
  | none ↦ p
  | some id ↦ elim (find_connector id connectors) [
    | none ↦ forget_connector p
    | some c ↦
        if not c.available
        then forget_connector p
        else record p { state = connecting id; pending = some (restore id) }
  ]
]

unfoldable pub restore_start : List Connector → Page → Page
unfolding restore_from
restore_start connectors p =
    if p.restored then p else restore_from connectors (record p { restored = true })

unfoldable pub restore_finish : Text → Answer → Page → Page
unfolding forget_connector
restore_finish id (signer account_id) p = record p {
  state = connected id account_id;
  pending = none;
}
restore_finish id _ p = record (forget_connector p) { state = disconnected; pending = none }

-- What `ConnectWallet` shows: the account with a button to disconnect, or a button for each connector.
pub data Part : Type 0 where
  paying_from : (account_id : Text) → (dev_key : Bool) → Part
  disconnect_button : Part
  connect_button : (connector_id label : Text) → (disabled : Bool) → Part
  remark : Text → Part

abbrev is_connecting : WalletState → Bool
is_connecting (connecting id) = true
is_connecting _ = false

abbrev waits_for : WalletState → Text → Bool
waits_for (connecting id) c = id === c
waits_for _ c = false

abbrev uses_local_key_of : Option Connector → Bool
uses_local_key_of none = false
uses_local_key_of (some c) = c.uses_local_key

abbrev buttons : WalletState → List Connector → List Part
buttons state [] = []
buttons state (c ∷ cs) =
    connect_button c.id (if waits_for state c.id then text "Waiting for the wallet…" else c.label)
      (not c.available || is_connecting state)
    ∷ (elim c.unavailable_reason [ none ↦ [] | some reason ↦ remark reason ∷ [] ]
        ++ buttons state cs)

unfoldable pub connect_wallet : List Connector → WalletState → List Part
unfolding find_connector
connect_wallet connectors (connected id account_id) =
    paying_from account_id (uses_local_key_of (find_connector id connectors))
    ∷ disconnect_button
    ∷ []
connect_wallet connectors (error message) =
    buttons (error message) connectors ++ remark message ∷ []
connect_wallet connectors state = buttons state connectors

pub data Event : Type 0 where
  mount disconnect_click : Event
  connect_click : (connector_id : Text) → Event
  answer : Answer → Event

-- A click on the button of a connector, which is there unless one is connected, and disabled while one
-- is being connected. Effects run before a click can.
abbrev clickable : WalletState → Bool
clickable disconnected = true
clickable (error message) = true
clickable _ = false

abbrev is_connected : WalletState → Bool
is_connected (connected id account_id) = true
is_connected _ = false

abbrev finish : Option Pending → Answer → Page → Page
finish none a p = p
finish (some (connect id)) a p = connect_finish id a p
finish (some (restore id)) a p = restore_finish id a p

unfoldable pub step : List Connector → Event → Page → Page
unfolding connect_start connect_finish disconnect restore_start restore_finish
step connectors mount p = restore_start connectors p
step connectors disconnect_click p = if p.restored && is_connected p.state then disconnect p else p
step connectors (connect_click id) p =
    if p.restored && clickable p.state then connect_start connectors id p else p
step connectors (answer a) p = finish p.pending a p

unfoldable pub run : List Connector → List Event → Page → Page
unfolding step
run connectors [] p = p
run connectors (e ∷ es) p = run connectors es (step connectors e p)

abbrev pub first_page : Option Text → Page
first_page remembered = record {
  state = disconnected;
  remembered = remembered;
  blocked = false;
  restored = false;
  pending = none;
}
