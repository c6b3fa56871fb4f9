-- ===== src/Mcp/Tools.antt =====
-- packages/mcp-server/src/tools: the tools that move money, and the free ones beside them.
pub mod Careful
pub mod Spending
pub mod Confirm
pub mod Unwritten
pub mod Books
use mach.Base.{
  ℕ, suc, ◌+◌, Bool, true, false, Option, none, some, List, [], ◌∷◌, ◌++◌, if◌then◌else◌,
}
use mach.Base.Int.{ℤ, pos}
use mach.Js.Text.{Text, text, ◌===◌}
use mach.Js.BigInt.{print}
use mach.Types.Session.{SessionStatus, SessionSpec, SessionCreated, SessionState}
use mach.Mcp.World.{
  Requirements, Outside, SshIdentity, PendingAction, open_session, top_up_session, ConfirmationHold,
  World, M, Error, keygen_failed, disk_failed, no_credentials, or_throw, return, throw, get, lift,
  big_int, ◌>>=◌, ◌>>◌,
}
use mach.Mcp.Config.{McpConfig}
use mach.Mcp.Receipt.{record_spend, log_audit}
use mach.Mcp.Limits.{
  check_daily_cap, needs_confirmation, hold_for_confirmation, take_confirmed_action,
  ConfirmationPayload, confirmation_payload,
}
use mach.Mcp.Client
use mach.Mcp.Payload.{
  Access, access_payload, Credit, credit_payload, Payload, confirmation_required, access, topped_up,
}

-- `BigInt(quote.accepts[0]?.amount ?? "0")`
abbrev first_amount : List Requirements → Text
first_amount [] = text "0"
first_amount (r ∷ rs) = r.amount

abbrev port_or : Option ℤ → ℤ
port_or none = pos 8888
port_or (some port) = port

module _ (o : Outside) where
  unfoldable pub create_ssh_identity : M SshIdentity
  create_ssh_identity w =
      or_throw (o.ssh_keygen w.calls) keygen_failed (record w { calls = suc w.calls })

  unfoldable pub create_payer : M (Unit {0})
  create_payer w = if o.has_credentials then return tt w else throw no_credentials w

  unfoldable pub save_certificate : M (Unit {0})
  save_certificate w =
      (if o.certificate_saved w.calls then return tt else throw disk_failed)
        (record w { calls = suc w.calls })

  unfoldable pub quote_open_session : Text → ℤ → Option Bool → M ℤ
  unfolding create_ssh_identity
  quote_open_session node_url seconds require_gpu = do
    identity ← create_ssh_identity
    quote ←
        Client.quote_session o node_url (record {
          seconds = seconds;
          public_key = identity.public_key;
          require_gpu = require_gpu;
        })
    lift (big_int (first_amount quote))

  unfoldable pub quote_top_up : Text → Text → Text → M ℤ
  quote_top_up node_url session_id token = do
    quote ← Client.quote_top_up o node_url session_id token
    lift (big_int (first_amount quote))

module _ (o : Outside) (config : McpConfig) where
  unfoldable pub perform_open_session : Text → ℤ → Option Bool → Option ℤ → M Payload
  unfolding create_ssh_identity create_payer save_certificate
  perform_open_session node_url seconds require_gpu local_port = do
    identity ← create_ssh_identity o
    create_payer o
    opened ←
        Client.create_session o config.network config.max_tinybars_per_payment node_url (record {
          seconds = seconds;
          public_key = identity.public_key;
          require_gpu = require_gpu;
        })
    let session = opened.0
    save_certificate o
    record_spend opened.1 node_url (some session.session_id) session.amount_tinybars
    log_audit (text "open_session") node_url session.session_id (some session.amount_tinybars)
        (text "paid")
    return (access (access_payload session identity (port_or local_port)))

  unfoldable pub perform_top_up : Text → Text → Text → M Payload
  unfolding quote_top_up create_payer
  perform_top_up node_url session_id token = do
    amount ← quote_top_up o node_url session_id token
    create_payer o
    topped ←
        Client.top_up_session o config.network config.max_tinybars_per_payment node_url session_id
          token
    record_spend topped.1 node_url (some session_id) (print amount)
    log_audit (text "top_up_session") node_url session_id (some (print amount)) (text "paid")
    return (topped_up (credit_payload topped.0))

  -- The action of a hold, or of a call that needs no confirmation.
  unfoldable pub perform : PendingAction → M Payload
  perform (open_session node_url seconds require_gpu local_port) =
      perform_open_session node_url seconds require_gpu local_port
  perform (top_up_session node_url session_id token) = perform_top_up node_url session_id token

  hold_payload : ℤ → PendingAction → M Payload
  hold_payload amount action = do
    hold ← hold_for_confirmation o amount action
    return (confirmation_required (confirmation_payload hold))

  unfoldable pub quote : PendingAction → M ℤ
  quote (open_session node_url seconds require_gpu local_port) =
      quote_open_session o node_url seconds require_gpu
  quote (top_up_session node_url session_id token) = quote_top_up o node_url session_id token

  -- The handlers of the tools `open_session` and `top_up_session`, which differ in their action only.
  unfoldable pub request_payment : PendingAction → M Payload
  unfolding hold_payload
  request_payment action = do
    amount ← quote action
    check_daily_cap config amount
    if needs_confirmation config amount then hold_payload amount action else perform action

  -- The handler of `confirm_payment`.
  unfoldable pub confirm_payment : Text → M Payload
  confirm_payment id = do hold ← take_confirmed_action id; perform hold.action

-- The handler of `get_node_quote`: the options of the challenge that a node answers.
unfoldable pub get_node_quote : Outside → Text → ℤ → Option Bool → M (List Requirements)
unfolding create_ssh_identity
get_node_quote o node_url seconds require_gpu = do
  identity ← create_ssh_identity o
  Client.quote_session o node_url
      (record { seconds = seconds; public_key = identity.public_key; require_gpu = require_gpu })

-- The handlers of `get_session_access` and `stop_session`.
unfoldable pub get_session_access : Outside → Text → Text → Text → M SessionState
get_session_access o node_url session_id token = Client.session_state o node_url session_id token

abbrev status_text : SessionStatus → Text
status_text SessionStatus.provisioning = text "provisioning"
status_text SessionStatus.active = text "active"
status_text SessionStatus.paused = text "paused"
status_text SessionStatus.stopped = text "stopped"
status_text SessionStatus.expired = text "expired"
status_text SessionStatus.failed = text "failed"

unfoldable pub stop_session : Outside → Text → Text → Text → M SessionState
stop_session o node_url session_id token = do
  s ← Client.stop_session o node_url session_id token
  log_audit (text "stop_session") node_url session_id none (status_text s.status)
  return s
