-- ===== src/Mcp/Tools/Confirm.antt =====
-- When a tool pays at once, holds or refuses, and what becomes of a hold.
use mach.Base.{
  ℕ, suc, ◌+◌, ◌≤◌, ◌≡◌, ◌∙◌, ◌⊎◌, inl, inr, refl, sym, ap, fun_ext, true, false, Option, none,
  some,
}
use mach.Base.Int.{ℤ, ◌+ℤ◌, ltb_ℤ}
use mach.Js.Text.{Text}
use mach.Mcp.World.{
  Outside, World, ConfirmationHold, PendingAction, open_session, top_up_session, Result, ok, err,
  no_hold, daily_cap, continue,
}
use mach.Mcp.Config.{McpConfig}
use mach.Mcp.Limits.{
  confirmation_payload, spent_today, check_daily_cap, needs_confirmation, hold_for_confirmation,
  new_hold, find_hold, set_hold, take_confirmed_action, sweep_expired,
}
use mach.Mcp.Limits.Holds.{
  find_hold-set_hold, take-find_none, take_missing, take_expired, HasExpired, taken, take_live,
}
use mach.Mcp.Tools.{
  Payload, confirmation_required, quote, perform_open_session, perform_top_up, perform,
  request_payment, confirm_payment,
}
use mach.Mcp.Tools.Careful.{Quiet, Quiet_frame, quote-IsCareful}
use mach.Mcp.Tools.Spending.{perform-holds}

module _ (o : Outside) (config : McpConfig) where
  confirm_refused :
      (id : Text) (w : World)
      → take_confirmed_action id w ≡ (err (no_hold id), sweep_expired w)
      → confirm_payment o config id w ≡ (err (no_hold id), sweep_expired w)
  unfolding confirm_payment
  confirm_refused id w e = rw e

  confirm-find_none :
      (id : Text) (w : World) → find_hold id (confirm_payment o config id w).1.holds ≡ none
  unfolding confirm_payment
  confirm-find_none id w =
      go (take_confirmed_action id w).0 (take_confirmed_action id w).1 (take-find_none id w)
    where
      go :
          (r : Result ConfirmationHold) (w' : World)
          → find_hold id w'.holds ≡ none
          → find_hold id (continue r (λ hold. perform o config hold.action) w').1.holds ≡ none
      go (ok hold) w' h = ap (find_hold id) (perform-holds o config hold.action w') ∙ h
      go (err e) w' h = h

  -- A confirmation id is good for one call: a second one is refused and signs nothing, however the
  -- first one ended.
  pub confirm_once :
      (id : Text) (w : World)
      → let w' = (confirm_payment o config id w).1 in
        ((confirm_payment o config id w').0 ≡ err (no_hold id))
        × ((confirm_payment o config id w').1.paid ≡ w'.paid)
  unfolding sweep_expired
  confirm_once id w =
      let w' = (confirm_payment o config id w).1 in
      let e = confirm_refused id w' (take_missing id w' (confirm-find_none id w)) in
      (ap (λ r. r.0) e, ap (λ r. r.1.paid) e)

  -- When every hold with an id has expired, confirming the id is refused and signs nothing.
  pub confirm_expired :
      (id : Text) (w : World)
      → HasExpired id w
      → ((confirm_payment o config id w).0 ≡ err (no_hold id))
        × ((confirm_payment o config id w).1.paid ≡ w.paid)
  unfolding sweep_expired
  confirm_expired id w h =
      let e = confirm_refused id w (take_expired id w h) in (ap (λ r. r.0) e, ap (λ r. r.1.paid) e)

  -- A stored hold that has not expired is performed as it was asked for, and is gone from the map
  -- before that.
  pub confirm_live :
      (id : Text) (w : World) (h : ConfirmationHold)
      → find_hold id w.holds ≡ some h
      → w.now ≤ h.expires_at
      → confirm_payment o config id w ≡ perform o config h.action (taken id w)
  unfolding confirm_payment
  confirm_live id w h e live = rw (take_live id w h e live)

  perform-cap :
      (cap : Option ℤ) (action : PendingAction)
      → perform o (record config { max_tinybars_per_day = cap }) action ≡ perform o config action
  unfolding perform perform_open_session perform_top_up
  perform-cap cap (open_session node_url seconds require_gpu local_port) = refl
  perform-cap cap (top_up_session node_url session_id token) = refl

  -- The daily cap plays no part when a held payment is confirmed: with any other cap, or none, the
  -- same is paid and the same is answered.
  pub confirm_ignores_daily_cap :
      (cap : Option ℤ) (id : Text) (w : World)
      → confirm_payment o (record config { max_tinybars_per_day = cap }) id w
        ≡ confirm_payment o config id w
  unfolding confirm_payment
  confirm_ignores_daily_cap cap id w =
      ap (λ f. continue (take_confirmed_action id w).0 f (take_confirmed_action id w).1)
        (fun_ext (λ hold. perform-cap cap hold.action))

  -- What a held payment leaves: nothing signed, and a hold that can be taken for five minutes.
  pub record IsHeld (action : PendingAction) (amount : ℤ) (now : ℕ) (w : World)
      (r : Result Payload × World) : Type 0 where
    pub hold : ConfirmationHold
    pub answer : r.0 ≡ ok (confirmation_required (confirmation_payload hold))
    pub stored : find_hold hold.id r.1.holds ≡ some hold
    pub same_action : hold.action ≡ action
    pub same_amount : hold.amount_tinybars ≡ amount
    pub unpaid : r.1.paid ≡ w.paid
    pub until : hold.expires_at ≡ now + 300000
    pub lives :
        (later : ℕ)
        → later ≤ now + 300000
        → (take_confirmed_action hold.id (record r.1 { now = later })).0 ≡ ok hold

  -- No cap on the day, or today's spending and the amount within it.
  abbrev pub FitsDay : World → ℤ → Type 0
  FitsDay w amount =
      (config.max_tinybars_per_day ≡ none)
      ⊎ ((cap : ℤ) × (spent : ℤ) × (config.max_tinybars_per_day ≡ some cap)
          × (spent_today w ≡ ok spent)
          × (ltb_ℤ cap (spent +ℤ amount) ≡ false))

  module _ (action : PendingAction) (amount : ℤ) (w w' : World)
      (quoted : quote o config action w ≡ (ok amount, w')) where
    quote_unpaid : w'.paid ≡ w.paid
    quote_unpaid =
        ap (λ r. r.1.paid) (sym quoted) ∙ ((quote-IsCareful {R = Quiet} o config action).apply w).0

    within_lem : FitsDay w' amount → check_daily_cap config amount w' ≡ (ok tt, w')
    unfolding check_daily_cap
    within_lem (inl free) = rw (free, check_daily_cap) refl
    within_lem (inr (cap, spent, capped, sum, fits)) = rw (capped, sum, fits, check_daily_cap) refl

    above_lem :
        (above : ℤ)
        → config.confirm_above_tinybars ≡ some above
        → ltb_ℤ above amount ≡ true
        → needs_confirmation config amount ≡ true
    unfolding needs_confirmation
    above_lem above asks more = rw (asks, more, needs_confirmation) refl

    -- A quote within the daily cap, or with no cap set, and above the confirmation threshold pays
    -- nothing: the answer is a hold with the action and the amount, stored under its id and good
    -- for five minutes.
    pub request-IsHeld :
        (above : ℤ)
        → FitsDay w' amount
        → config.confirm_above_tinybars ≡ some above
        → ltb_ℤ above amount ≡ true
        → IsHeld action amount w'.now w (request_payment o config action w)
    unfolding request_payment hold_for_confirmation
    request-IsHeld above within asks more =
        rw (quoted, within_lem within, above_lem above asks more, request_payment)
          (record {
            hold = new_hold o amount action (sweep_expired w');
            answer = refl;
            stored =
                find_hold-set_hold (new_hold o amount action (sweep_expired w'))
                  (sweep_expired w').holds;
            same_action = refl;
            same_amount = refl;
            unpaid = quote_unpaid;
            until = refl;
            lives = λ later h.
                let hold = new_hold o amount action (sweep_expired w') in
                ap (λ r. r.0)
                  (take_live hold.id
                    (record w' {
                      now = later;
                      calls = suc w'.calls;
                      holds = set_hold hold (sweep_expired w').holds;
                    })
                    hold (find_hold-set_hold hold (sweep_expired w').holds) h);
          })

    over_lem :
        (cap spent : ℤ)
        → config.max_tinybars_per_day ≡ some cap
        → spent_today w' ≡ ok spent
        → ltb_ℤ cap (spent +ℤ amount) ≡ true
        → check_daily_cap config amount w' ≡ (err (daily_cap spent amount cap), w')
    unfolding check_daily_cap
    over_lem cap spent capped sum over = rw (capped, sum, over, check_daily_cap)

    -- When a quote would take today's spending over the daily cap, the call is refused with that
    -- reason and signs nothing.
    pub request_over_cap :
        (cap spent : ℤ)
        → config.max_tinybars_per_day ≡ some cap
        → spent_today w' ≡ ok spent
        → ltb_ℤ cap (spent +ℤ amount) ≡ true
        → ((request_payment o config action w).0 ≡ err (daily_cap spent amount cap))
          × ((request_payment o config action w).1.paid ≡ w.paid)
    unfolding request_payment
    request_over_cap cap spent capped sum over =
        let refused = over_lem cap spent capped sum over in
        rw (quoted, refused, request_payment) (refl, quote_unpaid)

    -- A quote within the daily cap and not above the confirmation threshold performs the action at
    -- once.
    pub request_direct :
        check_daily_cap config amount w' ≡ (ok tt, w')
        → needs_confirmation config amount ≡ false
        → request_payment o config action w ≡ perform o config action w'
    unfolding request_payment
    request_direct within below = rw (quoted, within, below, request_payment)
