-- ===== src/Mcp/Client.antt =====
-- packages/mcp-server/src/vendor/sessionClient.ts: the calls of a node's session endpoints.
use mach.Base.{suc, ◌+◌, not, none, some, List, [], ◌∷◌, ◌++◌, ◌==◌, if◌then◌else◌}
use mach.Base.Int.{ℤ}
use mach.Js.Text.{Text, text, drop_end_slash}
use mach.Types.Session.{SessionSpec, SessionCreated, SessionState}
use mach.Mcp.World.{
  Requirements, Settlement, Header, absent, garbled, held, Body, created, state, failure, Response,
  HttpRequest, Outside, M, Error, syntax_error, type_error, fetch_failed, node_error, or_throw,
  return, throw, ◌>>=◌,
}
use mach.Mcp.Payer.{is_ok, pay_for}

-- The `error` of a JSON body, if there is one.
abbrev detail_of : Body → Text
detail_of (failure detail) = detail
detail_of _ = []

abbrev pub describe_failure : Response → Text → Error
describe_failure r what = node_error what r.status (detail_of r.body)

abbrev pub sessions_url : Text → Text
sessions_url node_url = drop_end_slash node_url ++ text "/v1/sessions"

abbrev pub session_url : Text → Text → Text → Text
session_url node_url session_id action = sessions_url node_url ++ (b'/' ∷ (session_id ++ action))

abbrev pub post_session : Text → SessionSpec → HttpRequest
post_session node_url spec = record {
  method = text "POST";
  url = sessions_url node_url;
  authorization = none;
  spec = some spec;
}

abbrev bearer : Text → Text → Text → HttpRequest
bearer method url token = record {
  method = method;
  url = url;
  authorization = some (text "Bearer " ++ token);
  spec = none;
}

abbrev pub post_top_up : Text → Text → Text → HttpRequest
post_top_up node_url session_id token =
    bearer (text "POST") (session_url node_url session_id (text "/topup")) token

abbrev get_state : Text → Text → Text → HttpRequest
get_state node_url session_id token = bearer (text "GET") (session_url node_url session_id []) token

abbrev post_stop : Text → Text → Text → HttpRequest
post_stop node_url session_id token =
    bearer (text "POST") (session_url node_url session_id (text "/stop")) token

-- `(await response.json()) as SessionCreated`: a body that is no JSON throws, and JSON of another
-- shape throws where the caller first reads a field of it.
unfoldable pub as_session : Body → M SessionCreated
as_session (created s) = return s
as_session (Body.plain t) = throw (syntax_error t)
as_session _ = throw type_error

unfoldable pub as_state : Body → M SessionState
as_state (state s) = return s
as_state (Body.plain t) = throw (syntax_error t)
as_state _ = throw type_error

abbrev pub challenge_of : Text → Header (List Requirements) → M (List Requirements)
challenge_of what absent = throw (node_error what 402 (text "no PAYMENT-REQUIRED header"))
challenge_of what garbled = throw (syntax_error [])
challenge_of what (held accepts) = return accepts

unfoldable pub decode_challenge : Response → Text → M (List Requirements)
decode_challenge r what =
    if not (r.status == 402)
    then throw (describe_failure r what)
    else challenge_of what r.payment_required

module _ (o : Outside) where
  -- The plain `fetch`, which pays nothing.
  unfoldable pub fetch : HttpRequest → M Response
  fetch request w =
      or_throw (o.fetch w.calls request) fetch_failed
        (record w { now = w.now + o.elapsed w.calls; calls = suc w.calls })

  unfoldable pub quote_session : Text → SessionSpec → M (List Requirements)
  unfolding fetch decode_challenge
  quote_session node_url spec = do
    response ← fetch (post_session node_url spec)
    decode_challenge response (text "quoting the session")

  unfoldable pub quote_top_up : Text → Text → Text → M (List Requirements)
  unfolding fetch decode_challenge
  quote_top_up node_url session_id token = do
    response ← fetch (post_top_up node_url session_id token)
    decode_challenge response (text "quoting the top-up")

  unfoldable pub create_session : Text → ℤ → Text → SessionSpec → M (SessionCreated × Settlement)
  unfolding pay_for as_session
  create_session network max_tinybars node_url spec = do
    paid ← pay_for o network max_tinybars (post_session node_url spec)
    session ← as_session paid.0.body
    return (session, paid.1)

  unfoldable pub top_up_session : Text → ℤ → Text → Text → Text → M (SessionState × Settlement)
  unfolding pay_for as_state
  top_up_session network max_tinybars node_url session_id token = do
    paid ← pay_for o network max_tinybars (post_top_up node_url session_id token)
    s ← as_state paid.0.body
    return (s, paid.1)

  ask_state : HttpRequest → Text → M SessionState
  unfolding fetch as_state
  ask_state request what = do
    response ← fetch request
    if not (is_ok response) then throw (describe_failure response what) else as_state response.body

  unfoldable pub session_state : Text → Text → Text → M SessionState
  unfolding ask_state
  session_state node_url session_id token =
      ask_state (get_state node_url session_id token) (text "reading the session")

  unfoldable pub stop_session : Text → Text → Text → M SessionState
  unfolding ask_state
  stop_session node_url session_id token =
      ask_state (post_stop node_url session_id token) (text "stopping the session")
