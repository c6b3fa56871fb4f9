-- ===== src/Web/Rent/Panel.antt =====
-- web/components/rent/session-panel.tsx: what the panel shows of a session, from top to bottom, less
-- the layout and the paragraphs of explanation. `date` is what `new Date(iso).getTime()` reads, `none`
-- for NaN, and `local_time` prints a time of day in the renter's language.
pub mod Offers
use mach.Base.{
  ℕ, zero, suc, ◌+◌, ◌-◌, ◌*◌, ◌/◌, ◌%◌, Bool, true, false, not, ◌&&◌, ◌||◌, Option, none, some,
  List, [], ◌∷◌, ◌++◌, if◌then◌else◌, ltb, ◌==◌,
}
use mach.Base.Int.{ℤ, pos, negsuc, leb_ℤ, sub_ℕ, ◌+ℤ◌, pos_part, neg_part}
use mach.Js.Text.{Text, text, ◌===◌, pad_start}
use mach.Js.BigInt.{print_nat}
use mach.Types.Node.{NodeListing}
use mach.Types.X402.{hashscan_url}
use mach.Types.Session.{
  SessionStatus, provisioning, active, paused, stopped, expired, failed, SettleState,
  is_session_terminal,
}
use mach.Web.Amounts.{hbar, hbar_short}
use mach.Web.Storage.{StoredSession}
use mach.Web.Rent.Session.{is_true, is_done}

pub data Action : Type 0 where
  open_jupyter top_up stop dismiss : Action

-- A part of the panel: a figure with its unit and its title, a detail with a note and a title, a
-- remark, a link, or a button that may be disabled.
pub data Part : Type 0 where
  figure : (label value : Text) → (unit title : Option Text) → Part
  detail : (label value : Text) → (note title : Option Text) → Part
  remark : Text → Part
  link : (label href : Text) → Part
  button : Action → (disabled : Bool) → Part

abbrev pad : ℕ → Text
pad value = pad_start 2 b'0' (print_nat value)

-- `h:mm:ss`, or `m:ss` within the first hour
unfoldable pub clock_face : ℕ → Text
unfolding print_nat
clock_face total =
    let hours = total / 3600 in
    let minutes = total % 3600 / 60 in
    let seconds = total % 60 in
    if ltb 0 hours
    then print_nat hours ++ (b':' ∷ (pad minutes ++ (b':' ∷ pad seconds)))
    else print_nat minutes ++ (b':' ∷ pad seconds)

-- `clock` of a whole number of seconds
unfoldable pub clock : ℤ → Text
unfolding clock_face
clock (pos zero) = text "0:00"
clock (pos (suc n)) = clock_face (suc n)
clock (negsuc n) = text "0:00"

-- `clock(ms / 1000)`: below a second it has nothing but zeros to print
unfoldable pub clock_ms : ℤ → Text
unfolding clock_face
clock_ms (pos zero) = text "0:00"
clock_ms (pos (suc n)) = clock_face (suc n / 1000)
clock_ms (negsuc n) = text "0:00"

abbrev minus : ℤ → ℕ → ℤ
minus a n = sub_ℕ (pos_part a) (neg_part a + n)

abbrev dash : Text
dash = text "—"

abbrev pub status_text : SessionStatus → Text
status_text provisioning = text "provisioning"
status_text active = text "active"
status_text paused = text "paused"
status_text stopped = text "stopped"
status_text expired = text "expired"
status_text failed = text "failed"

abbrev pub is_paused : SessionStatus → Bool
is_paused paused = true
is_paused _ = false

abbrev or_zero : Option Text → Text
or_zero none = text "0"
or_zero (some t) = t

-- `Math.round(a / b)` of natural numbers
abbrev round_div : ℕ → ℕ → ℕ
round_div a b = (2 * a + b) / (2 * b)

abbrev session_length : Option ℤ → Text
session_length (some (pos (suc n))) = print_nat (round_div (suc n) 60) ++ text " min"
session_length _ = dash

abbrev running_low : Text
running_low =
    text "Running low — the next top-up should fire automatically. "
    ++ text "If your wallet is prompting, that is why."

module _ (date : Text → Option ℤ) (local_time : ℤ → Text) where
  unfoldable pub use_countdown : ℕ → Text → Text
  unfolding clock_ms
  use_countdown now expires_at = elim (date expires_at) [
    | none ↦ dash
    | some at ↦ clock_ms (minus at now)
  ]

  -- `clock((now - started) / 1000)`; a date before 1970 is further in the past
  unfoldable pub use_elapsed : ℕ → Option Text → Text
  unfolding clock_ms
  use_elapsed now created_at = elim created_at [
    | none ↦ dash
    | some iso ↦ elim (date iso) [
      | none ↦ dash
      | some started ↦ clock_ms (sub_ℕ (now + neg_part started) (pos_part started))
    ]
  ]

  unfoldable pub time : Text → Text
  time iso = elim (date iso) [ none ↦ dash | some at ↦ local_time at ]

  -- The headline of a session that has not ended, and the figures below it.
  unfoldable pub running_parts : ℕ → StoredSession → List Part
  unfolding use_countdown use_elapsed time hbar hbar_short clock
  running_parts now s =
      let c = s.created in
      let frozen = is_paused c.status in
      let hbars = λ (t : Text). hbar t ++ text " HBAR" in
      let low = c.low_credits && (not (is_true c.fully_paid) && not frozen) in
      figure (if frozen then text "Frozen" else text "Time remaining")
        (if frozen then text "0:00" else use_countdown now c.expires_at) none none
      ∷ figure (text "Credit left") (if frozen then text "0" else hbar_short 4 c.credit_tinybars)
          (some (text "HBAR")) (some (hbars c.credit_tinybars))
      ∷ ((if low then remark running_low ∷ [] else [])
          ++ (detail (text "Session length") (session_length c.session_seconds) none none
              ∷ detail (text "Paid for")
                  (elim s.paid_seconds [ none ↦ dash | some paid ↦ clock paid ])
                  (some (
                    if is_true c.fully_paid
                    then text "all of it — no more top-ups"
                    else text "topping up as it burns"))
                  none
              ∷ detail (text "Used so far") (use_elapsed now s.created_at) none none
              ∷ detail (text "Spent so far")
                  (elim s.burned_tinybars [ none ↦ dash | some b ↦ hbar_short 4 b ++ text " HBAR" ])
                  none (elim s.burned_tinybars [ none ↦ none | some b ↦ some (hbars b) ])
              ∷ detail (text "Rate") (hbar_short 6 c.price_tinybars_per_second ++ text " HBAR/s")
                  none (some (hbar c.price_tinybars_per_second ++ text " HBAR/s"))
              ∷ detail (text "Runs out") (time c.expires_at) none none
              ∷ []))

-- What an ended session has left: refunded, or owed by the node.
unfoldable pub ended_parts : StoredSession → List Part
unfolding hbar hbar_short
ended_parts s =
    let settled = is_done s.settle_state in
    let amount = if settled then or_zero s.refunded_tinybars else s.created.credit_tinybars in
    figure
      (if settled
        then text "Refunded"
        else if is_true s.ended_remotely
        then text "Owed at the last check"
        else text "Owed to you")
      (hbar_short 4 amount) (some (text "HBAR")) (some (hbar amount ++ text " HBAR"))
    ∷ []

abbrev pub jupyter : StoredSession → Text
jupyter s = s.created.jupyter_url ++ (text "/?token=" ++ s.created.jupyter_token)

-- The links and the buttons, the panel being busy or not.
unfoldable pub actions : Bool → StoredSession → List Part
unfolding is_session_terminal
actions busy s =
    let ended = is_session_terminal s.created.status in
    let frozen = is_paused s.created.status in
    (if not ended && not frozen then link (text "Open Jupyter") (jupyter s) ∷ [] else [])
    ++ ((if not ended
          then (if is_true s.created.fully_paid then [] else button top_up busy ∷ [])
            ++ button stop busy ∷ []
          else [])
        ++ (if ended then button dismiss false ∷ [] else []))

abbrev audit_trail : Option Text → List Part
audit_trail none = []
audit_trail (some topic) =
    if topic === []
    then []
    else link (text "Refund-owed trail") (text "https://hashscan.io/testnet/topic/" ++ topic) ∷ []

-- The links to the records on Hedera.
unfoldable pub receipts : NodeListing → StoredSession → List Part
unfolding hashscan_url
receipts node s =
    let burned : Text = elim s.burned_tinybars [
      | none ↦ []
      | some b ↦ text " · burned so far: " ++ (b ++ text " tinybars")
    ] in
    link (text "Paid so far") (hashscan_url s.created.transaction node.network)
    ∷ remark
        (text "opening payment: " ++ (s.created.amount_tinybars ++ (text " tinybars" ++ burned)))
    ∷ detail (text "Session") s.created.session_id none none
    ∷ audit_trail node.audit_topic

unfoldable pub session_panel :
    (Text → Option ℤ)
    → (ℤ → Text)
    → ℕ
    → StoredSession
    → NodeListing
    → (busy error : Option Text) → List Part
unfolding running_parts ended_parts actions receipts
session_panel date local_time now s node busy error =
    let ended = is_session_terminal s.created.status in
    let shown : Option Text → List Part = λ t. elim t [ none ↦ [] | some m ↦ remark m ∷ [] ] in
    let is_busy : Bool = elim busy [ none ↦ false | some b ↦ true ] in
    remark (status_text s.created.status)
    ∷ ((if not ended then running_parts date local_time now s else ended_parts s)
        ++ (actions is_busy s ++ (receipts node s ++ (shown busy ++ shown error))))
