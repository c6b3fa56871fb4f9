-- ===== src/Mcp/Limits.antt =====
-- packages/mcp-server/src/safety/limits.ts: the daily cap, and the payments held for confirmation.
pub mod Holds
pub mod Daily
use mach.Base.{
  ℕ, suc, ◌+◌, Bool, true, false, not, Option, none, some, List, [], ◌∷◌, ◌++◌, ltb, keep,
  if◌then◌else◌,
}
use mach.Base.Int.{ℤ, pos, ◌+ℤ◌, ltb_ℤ}
use mach.Js.Text.{Text, text, ◌===◌, slice_to}
use mach.Js.BigInt.{parse, print}
use mach.Js.Date.{to_iso_string, iso_day}
use mach.Mcp.Config.{McpConfig}
use mach.Mcp.World.{
  Outside, SpendRecord, PendingAction, ConfirmationHold, World, M, Result, ok, err, Error,
  type_error, syntax_error, daily_cap, no_hold, return, throw, get, lift, big_int, ◌>>=◌, ◌>>◌,
}
use mach.Mcp.Receipt.{read_spend}

abbrev pub confirmation_ttl_ms : ℕ
confirmation_ttl_ms = 300000

-- `record.paid_at.slice(0, 10) === today`
abbrev pub paid_on : Text → SpendRecord → Bool
paid_on today r = slice_to 10 r.paid_at === today

-- The `filter`; reading a field of a value of another shape throws.
unfoldable pub filter_today : Text → List (Option SpendRecord) → Result (List SpendRecord)
filter_today today [] = ok []
filter_today today (none ∷ records) = err type_error
filter_today today (some r ∷ records) = elim (filter_today today records) [
  | ok rest ↦ ok (if paid_on today r then r ∷ rest else rest)
  | err e ↦ err e
]

-- The `reduce`; a malformed amount throws.
unfoldable pub sum_from : ℤ → List SpendRecord → Result ℤ
sum_from sum [] = ok sum
sum_from sum (r ∷ records) = elim (parse r.amount_tinybars) [
  | none ↦ err (syntax_error r.amount_tinybars)
  | some z ↦ sum_from (sum +ℤ z) records
]

unfoldable pub sum_today : Result (List SpendRecord) → Result ℤ
unfolding sum_from
sum_today (ok records) = sum_from (pos 0) records
sum_today (err e) = err e

unfoldable pub spent_today : World → Result ℤ
unfolding sum_today filter_today
spent_today w = sum_today (filter_today (iso_day w.now) (read_spend w))

abbrev pub over_cap : ℤ → ℤ → Result ℤ → Result (Unit {0})
over_cap cap amount (err e) = err e
over_cap cap amount (ok spent) =
    if ltb_ℤ cap (spent +ℤ amount) then err (daily_cap spent amount cap) else ok tt

unfoldable pub check_daily_cap : McpConfig → ℤ → M (Unit {0})
check_daily_cap config amount w = elim config.max_tinybars_per_day [
  | none ↦ (ok tt, w)
  | some cap ↦ (over_cap cap amount (spent_today w), w)
]

unfoldable pub needs_confirmation : McpConfig → ℤ → Bool
needs_confirmation config amount = elim config.confirm_above_tinybars [
  | none ↦ false
  | some above ↦ ltb_ℤ above amount
]

unfoldable pub sweep_expired : World → World
sweep_expired w = record w { holds = keep (λ h. not (ltb h.expires_at w.now)) w.holds }

-- `Map.get`, `Map.set` and `Map.delete`
unfoldable pub find_hold : Text → List ConfirmationHold → Option ConfirmationHold
find_hold id [] = none
find_hold id (h ∷ hs) = if h.id === id then some h else find_hold id hs

unfoldable pub set_hold : ConfirmationHold → List ConfirmationHold → List ConfirmationHold
set_hold hold [] = hold ∷ []
set_hold hold (h ∷ hs) = if h.id === hold.id then hold ∷ hs else h ∷ set_hold hold hs

unfoldable pub delete_hold : Text → List ConfirmationHold → List ConfirmationHold
delete_hold id = keep (λ h. not (h.id === id))

abbrev pub new_hold : Outside → ℤ → PendingAction → World → ConfirmationHold
new_hold o amount action s = record {
  id = o.random_uuid s.calls;
  amount_tinybars = amount;
  action = action;
  expires_at = s.now + confirmation_ttl_ms;
}

unfoldable pub hold_for_confirmation : Outside → ℤ → PendingAction → M ConfirmationHold
unfolding sweep_expired set_hold
hold_for_confirmation o amount action w =
    let s = sweep_expired w in
    let hold = new_hold o amount action s in
    (ok hold, record s { calls = suc s.calls; holds = set_hold hold s.holds })

unfoldable pub take_confirmed_action : Text → M ConfirmationHold
unfolding sweep_expired find_hold delete_hold
take_confirmed_action id w =
    let s = sweep_expired w in
    elim (find_hold id s.holds) [
      | none ↦ (err (no_hold id), s)
      | some hold ↦ (ok hold, record s { holds = delete_hold id s.holds })
    ]

pub record ConfirmationPayload : Type 0 where
  pub status : Text
  pub confirmation_id : Text
  pub amount_tinybars : Text
  pub expires_at : Text
  pub message : Text

unfoldable pub confirmation_payload : ConfirmationHold → ConfirmationPayload
confirmation_payload hold = record {
  status = text "confirmation_required";
  confirmation_id = hold.id;
  amount_tinybars = print hold.amount_tinybars;
  expires_at = to_iso_string hold.expires_at;
  message =
      text
        "This payment is above the configured confirmation threshold. Call confirm_payment with this confirmation_id to actually pay.";
}
