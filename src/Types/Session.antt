-- ===== src/Types/Session.antt =====
-- packages/types/src/session.ts: what a node answers about a metered session. Amounts are strings
-- of tinybars.
use mach.Base.{Bool, true, false, Option, List, [], ◌∷◌, ◌||◌}
use mach.Base.Int.{ℤ}
use mach.Js.Text.{Text}

pub data SessionStatus : Type 0 where
  provisioning active paused stopped expired failed : SessionStatus

pub data SettleState : Type 0 where
  pending done : SettleState

pub record SessionSpec : Type 0 where
  pub seconds : ℤ
  pub public_key : Text
  pub require_gpu : Option Bool

pub record SessionCreated : Type 0 where
  pub session_id : Text
  pub lease_id : Text
  pub token : Option Text
  pub status : SessionStatus
  pub expires_at : Text
  pub certificate : Text
  pub ssh_user : Text
  pub ssh_host : Option Text
  pub ssh_principal : Text
  pub jupyter_url : Text
  pub jupyter_token : Text
  pub tunnel_mode : Text
  pub transaction : Text
  pub payer : Text
  pub amount_tinybars : Text
  pub price_tinybars_per_second : Text
  pub credit_tinybars : Text
  pub low_credits : Bool
  pub seconds : ℤ
  pub session_seconds : Option ℤ
  pub fully_paid : Option Bool

pub record SessionState : Type 0 where
  pub session_id : Text
  pub lease_id : Text
  pub status : SessionStatus
  pub created_at : Text
  pub expires_at : Text
  pub seconds_remaining : ℤ
  pub paid_seconds : ℤ
  pub session_seconds : Option ℤ
  pub fully_paid : Option Bool
  pub gpu : Bool
  pub price_tinybars_per_second : Text
  pub credit_tinybars : Text
  pub burned_tinybars : Text
  pub refunded_tinybars : Text
  pub low_credits : Bool
  pub settle_state : SettleState
  pub error : Option Text

pub record SessionOffer : Type 0 where
  pub price_tinybars_per_second : Text
  pub min_seconds : ℤ
  pub max_seconds : ℤ
  pub max_total_seconds : ℤ
  pub chunk_seconds : ℤ
  pub ssh : Bool
  pub jupyter : Bool
  pub gpu : Bool

abbrev same : SessionStatus → SessionStatus → Bool
same provisioning provisioning = true
same active active = true
same paused paused = true
same stopped stopped = true
same expired expired = true
same failed failed = true
same _ _ = false

-- `Array.prototype.includes`
includes : List SessionStatus → SessionStatus → Bool
includes [] s = false
includes (t ∷ ts) s = same t s || includes ts s

abbrev pub terminal_session_statuses : List SessionStatus
terminal_session_statuses = stopped ∷ expired ∷ failed ∷ []

unfoldable pub is_session_terminal : SessionStatus → Bool
unfolding includes
is_session_terminal status = includes terminal_session_statuses status
