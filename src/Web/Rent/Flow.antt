-- ===== src/Web/Rent/Flow.antt =====
-- web/components/rent/session-flow.tsx: the page of one node, from its stored session to its
-- dismissal. A handler that awaits is two functions: what it does up to its request, and what it does
-- with the answer. The effect that saves the session runs with each change of it.
pub mod Events
pub mod Ending
pub mod Saving
pub mod TopUps
use mach.Base.{
  ℕ, Bool, true, false, not, ◌&&◌, ◌||◌, Option, none, some, [], ◌∷◌, ◌++◌, if◌then◌else◌, leb,
  ◌==◌,
}
use mach.Js.Text.{Text, text, ◌===◌}
use mach.Js.BigInt.{print_nat}
use mach.Types.Node.{NodeListing}
use mach.Types.Session.{SessionCreated, SessionState, SessionStatus, expired, is_session_terminal}
use mach.Web.Storage.{Browser, StoredSession, load_session, save_session, clear_session}
use mach.Web.Rent.Session.{
  Thrown, describe, message_of, Page, view_of, over, spread, is_true, is_active, OpenAnswer, threw,
  unreachable, unhealthy, opened, TopUpAnswer, topped_up, StopAnswer, refused, stopped, PollAnswer,
  state, could_not_reach, is_gone, end_remotely,
}

unfoldable pub open_start : Bool → Page → Page
open_start payer p =
    if payer then record p { error = none; busy = some (text "Generating a session key…") } else p

unfoldable pub fail : Thrown → Page → Page
unfolding describe
fail caught p = record p { error = some (describe caught) }

-- Whether `topUp`, as it was made when the session was `seen`, goes on to its payment.
unfoldable pub top_up_goes : Bool → Option StoredSession → Page → Bool
top_up_goes payer seen p = elim seen [
  | none ↦ false
  | some s ↦ payer && (elim s.created.token [ none ↦ false | some t ↦ true ] && not p.topping_up)
]

unfoldable pub top_up_start : Bool → Option StoredSession → Page → Page
unfolding top_up_goes
top_up_start payer seen p =
    if top_up_goes payer seen p
    then record p { topping_up = true; error = none; busy = some (text "Buying more credit…") }
    else p

unfoldable pub stop_start : Page → Page
stop_start p = elim p.session [
  | none ↦ p
  | some s ↦ elim s.created.token [
    | none ↦ p
    | some t ↦ record p { error = none; busy = some (text "Ending the session…") }
  ]
]

module _ (node : NodeListing) where
  -- The effects that follow a change of the session.
  unfoldable pub set_session : ℕ → Option StoredSession → Page → Page
  set_session now session p = elim session [
    | none ↦ record p { session = none }
    | some s ↦
        if p.hydrated
        then record p { session = some s; browser = save_session now node.node_id s p.browser }
        else record p { session = some s }
  ]

  -- The effect of the first rendering; the saving effect runs again for `hydrated`.
  unfoldable pub hydrate : ℕ → Page → Page
  unfolding set_session
  hydrate now p =
      let (stored, browser) = load_session now node.node_id p.browser in
      let p' : Page = record p { hydrated = true; browser = browser } in
      set_session now (over stored p.session) p'

  -- The error for a `/health` that is not ok is thrown within the inner `try`, which catches it.
  unfoldable pub open_answered : ℕ → OpenAnswer → Page → Page
  unfolding set_session fail could_not_reach view_of
  open_answered now (threw caught) p = fail caught p
  open_answered now (unreachable caught) p =
      fail (could_not_reach node.public_url (message_of caught)) p
  open_answered now (unhealthy status) p =
      let why = text "the node answered " ++ (print_nat status ++ text " on /health") in
      fail (could_not_reach node.public_url why) p
  open_answered now (opened created) p = set_session now (some (view_of created)) p

  unfoldable pub open_finish : ℕ → OpenAnswer → Page → Page
  unfolding open_answered
  open_finish now answer p = record (open_answered now answer p) { busy = none }

  unfoldable pub update : ℕ → SessionState → Page → Page
  unfolding set_session spread
  update now updated p = elim p.session [
    | none ↦ p
    | some current ↦ set_session now (some (spread current updated)) p
  ]

  unfoldable pub top_up_finish : ℕ → TopUpAnswer → Page → Page
  unfolding update fail
  top_up_finish now (threw caught) p = record (fail caught p) { topping_up = false; busy = none }
  top_up_finish now (topped_up updated) p = record (update now updated p) {
    topping_up = false;
    busy = none;
  }

  unfoldable pub stop_finish : ℕ → StopAnswer → Page → Page
  unfolding update fail print_nat
  stop_finish now (threw caught) p = record (fail caught p) { busy = none }
  stop_finish now (refused status status_text) p =
      let message = text "the node answered " ++ (print_nat status ++ (text " " ++ status_text)) in
      record (fail (Thrown.error (text "Error") message none) p) { busy = none }
  stop_finish now (stopped updated) p = record (update now updated p) { busy = none }

  -- `check`, as the effect made it for the session `seen`, when its answer comes.
  unfoldable pub poll : ℕ → StoredSession → PollAnswer → Page → Page
  unfolding set_session spread end_remotely
  poll now seen threw p = p
  poll now seen (refused status) p = elim p.session [
    | none ↦ p
    | some current ↦
        if not (is_gone status)
        then p
        else if not (current.created.session_id === seen.created.session_id)
        then p
        else if is_true current.ended_remotely
        then p
        else set_session now (some (end_remotely current)) p
  ]
  poll now seen (state updated) p = elim p.session [
    | none ↦ p
    | some current ↦
        if not (current.created.session_id === seen.created.session_id)
        then p
        else set_session now (some (spread current updated)) p
  ]

  unfoldable pub dismiss : Page → Page
  dismiss p = record p {
    browser = clear_session node.node_id p.browser;
    session = none;
    error = none;
  }
