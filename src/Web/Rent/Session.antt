-- ===== src/Web/Rent/Session.antt =====
-- web/components/rent/session-flow.tsx and describe-error.ts: the state of the page, a session as it
-- is shown, the answers that the handlers wait for, and the texts of failures.
use mach.Base.{
  ℕ, Bool, true, false, not, ◌&&◌, ◌||◌, Option, none, some, [], ◌∷◌, ◌++◌, if◌then◌else◌, ◌==◌,
}
use mach.Js.Text.{Text, text, ◌===◌}
use mach.Types.Session.{
  SessionCreated, SessionState, SessionStatus, active, expired, SettleState, is_session_terminal,
}
use mach.Web.Storage.{Browser, StoredSession}

-- What a `catch` gets: the client's `PaymentError`, another `Error`, or a value thrown as a text.
pub data Thrown : Type 0 where
  payment_error : (message body : Text) → Thrown
  error : (name message : Text) → (cause : Option Text) → Thrown
  other : Text → Thrown

abbrev caused : Option Text → Text
caused none = []
caused (some m) = 10 ∷ text "caused by: " ++ m

unfoldable pub describe : Thrown → Text
describe (payment_error message body) =
    if not (body === []) then message ++ (10 ∷ body) else message
describe (error name message cause) = name ++ (text ": " ++ (message ++ caused cause))
describe (other t) = t

abbrev pub message_of : Thrown → Text
message_of (payment_error message body) = message
message_of (error name message cause) = message
message_of (other t) = t

pub record Page : Type 0 where
  pub hydrated : Bool
  pub busy : Option Text
  pub error : Option Text
  pub session : Option StoredSession
  pub topping_up : Bool
  pub browser : Browser

-- `SessionCreated` as the view that the panel shows.
unfoldable pub view_of : SessionCreated → StoredSession
view_of created = record {
  created = created;
  created_at = none;
  seconds_remaining = none;
  paid_seconds = none;
  gpu = none;
  burned_tinybars = none;
  refunded_tinybars = none;
  settle_state = none;
  error = none;
  ended_remotely = none;
}

-- A property of an object that is spread over another: an absent one leaves what there was.
abbrev pub over {ℓ} : {A : Type ℓ} → Option A → Option A → Option A
over none old = old
over (some a) old = some a

-- `{ ...current, ...updated }`
unfoldable pub spread : StoredSession → SessionState → StoredSession
spread current updated = record current {
  created = record current.created {
    session_id = updated.session_id;
    lease_id = updated.lease_id;
    status = updated.status;
    expires_at = updated.expires_at;
    session_seconds = over updated.session_seconds current.created.session_seconds;
    fully_paid = over updated.fully_paid current.created.fully_paid;
    price_tinybars_per_second = updated.price_tinybars_per_second;
    credit_tinybars = updated.credit_tinybars;
    low_credits = updated.low_credits;
  };
  created_at = some updated.created_at;
  seconds_remaining = some updated.seconds_remaining;
  paid_seconds = some updated.paid_seconds;
  gpu = some updated.gpu;
  burned_tinybars = some updated.burned_tinybars;
  refunded_tinybars = some updated.refunded_tinybars;
  settle_state = some updated.settle_state;
  error = over updated.error current.error;
}

abbrev pub is_true : Option Bool → Bool
is_true none = false
is_true (some b) = b

abbrev pub is_active : SessionStatus → Bool
is_active active = true
is_active _ = false

abbrev pub is_done : Option SettleState → Bool
is_done (some SettleState.done) = true
is_done _ = false

-- Whether the page goes on asking about a session, and after how many milliseconds.
unfoldable pub watch : StoredSession → Option ℕ
unfolding is_session_terminal
watch s = elim s.created.token [
  | none ↦ none
  | some token ↦
      let ended = is_session_terminal s.created.status in
      let awaiting_refund = ended && not (is_done s.settle_state) in
      if is_true s.ended_remotely
      then none
      else if ended && not awaiting_refund
      then none
      else some (if awaiting_refund then 5000 else 7000)
]

pub data OpenAnswer : Type 0 where
  threw unreachable : Thrown → OpenAnswer
  unhealthy : (status : ℕ) → OpenAnswer
  opened : SessionCreated → OpenAnswer

pub data TopUpAnswer : Type 0 where
  threw : Thrown → TopUpAnswer
  topped_up : SessionState → TopUpAnswer

pub data StopAnswer : Type 0 where
  threw : Thrown → StopAnswer
  refused : (status : ℕ) → (status_text : Text) → StopAnswer
  stopped : SessionState → StopAnswer

-- `state` is an answer of status 2xx, read as JSON; `threw` is a failure of either.
pub data PollAnswer : Type 0 where
  threw : PollAnswer
  refused : (status : ℕ) → PollAnswer
  state : SessionState → PollAnswer

unfoldable pub could_not_reach : Text → Text → Thrown
could_not_reach url why =
    Thrown.error (text "Error")
      (text "The browser could not reach "
        ++ (url
            ++ (text
                  ". The node's own logs may show nothing at all, because the request never arrived — "
                ++ (text "check the Network tab for the real reason. (" ++ (why ++ text ")")))))
      none

abbrev pub is_gone : ℕ → Bool
is_gone status = status == 404 || (status == 401 || status == 403)

-- The session as it is kept once its node no longer answers for it.
unfoldable pub end_remotely : StoredSession → StoredSession
end_remotely current = record current {
  created = record current.created {
    status = if is_session_terminal current.created.status then current.created.status else expired;
  };
  ended_remotely = some true;
}

-- Whether that answer asks for a top-up.
unfoldable pub wants_top_up : Bool → PollAnswer → Bool
wants_top_up payer (state updated) =
    updated.low_credits && (not (is_true updated.fully_paid) && (is_active updated.status && payer))
wants_top_up payer _ = false
