-- ===== src/Mcp/Tools/Spending.antt =====
-- What a call of a tool may sign, and what it leaves alone.
use mach.Base.{ℕ, not, ◌≡◌, ap, List, [], ◌∷◌, All}
use mach.Js.Text.{Text}
use mach.Mcp.World.{
  Requirements, HttpRequest, Outside, RespectsPolicy, World, PendingAction, open_session,
  top_up_session, fetch_failed,
}
use mach.Mcp.Payer.{acceptable, is_ok, read_settlement, pay, pay_for}
use mach.Mcp.Payer.Policy.{IsAffordable}
use mach.Mcp.Config.{McpConfig}
use mach.Mcp.Client
use mach.Mcp.Tools.{
  quote_top_up, perform_open_session, perform_top_up, perform, request_payment, confirm_payment,
}
use mach.Mcp.Limits.{needs_confirmation}
use mach.Mcp.Tools.Careful.{
  Signs, or_throw_world, IsCareful, bind-IsCareful, lift-IsCareful, if-IsCareful, fetch-IsCareful,
  decode_challenge-IsCareful, create_ssh_identity-IsCareful, quote-IsCareful, as_session-IsCareful,
  as_state-IsCareful, create_payer-IsCareful, save_certificate-IsCareful, record_spend-IsCareful,
  log_audit-IsCareful, check_daily_cap-IsCareful, check_settlement-IsCareful, Signs_frame,
  Quiet_frame, Runs, Runs_frame, hold_for_confirmation-IsCareful, take_confirmed_action-IsCareful,
  All-acceptable,
}

-- What the node can have the account sign in a call of the paying fetch.
abbrev Allowed : Outside → McpConfig → (Requirements → Type 0) → Type 0
Allowed o config P =
    (n : ℕ) (request : HttpRequest)
    → All P (o.fetch_paying (acceptable config.network config.max_tinybars_per_payment) n request).1

module _ (o : Outside) (config : McpConfig) {P : Requirements → Type 0}
    (allowed : Allowed o config P) where
  pay-Runs :
      (request : HttpRequest) (w : World)
      → Runs P w (pay o config.network config.max_tinybars_per_payment request w).1
  unfolding pay
  pay-Runs request w =
      let reply =
        o.fetch_paying (acceptable config.network config.max_tinybars_per_payment) w.calls
          request in
      let after = or_throw_world reply.0 fetch_failed _ in
      ((reply.1, ap (λ v. v.paid) after, allowed w.calls request), ap (λ v. v.holds) after)

  pay-IsCareful :
      (request : HttpRequest)
      → IsCareful (Runs P) (pay o config.network config.max_tinybars_per_payment request)
  pay-IsCareful request = record { apply = pay-Runs request }

  pay_for-IsCareful :
      (request : HttpRequest)
      → IsCareful (Runs P) (pay_for o config.network config.max_tinybars_per_payment request)
  unfolding pay_for
  pay_for-IsCareful request = bind-IsCareful (pay-IsCareful request) (λ r.
      if-IsCareful (not (is_ok r)) lift-IsCareful
        (check_settlement-IsCareful r (read_settlement r)))

  pub perform-IsCareful : (action : PendingAction) → IsCareful (Runs P) (perform o config action)
  unfolding perform perform_open_session perform_top_up Client.create_session Client.top_up_session
      quote_top_up Client.quote_top_up
  perform-IsCareful (open_session node_url seconds require_gpu local_port) =
      bind-IsCareful (create_ssh_identity-IsCareful o) (λ identity.
        bind-IsCareful (create_payer-IsCareful o) (λ _.
          bind-IsCareful
            (bind-IsCareful (pay_for-IsCareful _)
              (λ paid. bind-IsCareful (as_session-IsCareful paid.0.body) (λ s. lift-IsCareful)))
            (λ opened. bind-IsCareful (save_certificate-IsCareful o) (λ _.
              bind-IsCareful (record_spend-IsCareful opened.1 node_url _ _) (λ _.
                bind-IsCareful (log_audit-IsCareful _ node_url _ _ _) (λ _. lift-IsCareful))))))
  perform-IsCareful (top_up_session node_url session_id token) =
      bind-IsCareful
        (bind-IsCareful (bind-IsCareful (fetch-IsCareful o _) (λ r. decode_challenge-IsCareful r _))
          (λ challenge. lift-IsCareful))
        (λ amount. bind-IsCareful (create_payer-IsCareful o) (λ _.
          bind-IsCareful
            (bind-IsCareful (pay_for-IsCareful _)
              (λ paid. bind-IsCareful (as_state-IsCareful paid.0.body) (λ s. lift-IsCareful)))
            (λ topped.
              bind-IsCareful (record_spend-IsCareful topped.1 node_url _ _) (λ _.
                bind-IsCareful (log_audit-IsCareful _ node_url _ _ _) (λ _. lift-IsCareful)))))

All-trivial : (signed : List Requirements) → All (λ _. Unit {0}) signed
All-trivial [] = tt
All-trivial (r ∷ rs) = (tt, All-trivial rs)

-- Performing an action leaves the holds alone.
pub perform-holds :
    (o : Outside) (config : McpConfig) (action : PendingAction) (w : World)
    → (perform o config action w).1.holds ≡ w.holds
perform-holds o config action w =
    ((perform-IsCareful o config {P = λ _. Unit {0}} (λ n request. All-trivial _) action).apply w).1

module _ (o : Outside) (respects : RespectsPolicy o) (config : McpConfig) where
  abbrev pub Affordable : Requirements → Type 0
  Affordable = IsAffordable config.network config.max_tinybars_per_payment

  Affordable-only : Allowed o config Affordable
  Affordable-only n request =
      All-acceptable config.network config.max_tinybars_per_payment _
        (respects (acceptable config.network config.max_tinybars_per_payment) n request)

  perform-Signs : (action : PendingAction) → IsCareful (Signs Affordable) (perform o config action)
  perform-Signs action = record {
    apply = λ w. ((perform-IsCareful o config Affordable-only action).apply w).0;
  }

  request_payment-IsCareful :
      (action : PendingAction) → IsCareful (Signs Affordable) (request_payment o config action)
  unfolding request_payment
  request_payment-IsCareful action = bind-IsCareful (quote-IsCareful o config action) (λ amount.
      bind-IsCareful (check_daily_cap-IsCareful config amount) (λ _.
        if-IsCareful (needs_confirmation config amount)
          (bind-IsCareful (hold_for_confirmation-IsCareful o amount action)
            (λ hold. lift-IsCareful))
          (perform-Signs action)))

  confirm_payment-IsCareful :
      (id : Text) → IsCareful (Signs Affordable) (confirm_payment o config id)
  unfolding confirm_payment
  confirm_payment-IsCareful id =
      bind-IsCareful (take_confirmed_action-IsCareful id) (λ hold. perform-Signs hold.action)

  -- Whatever a node quotes or answers, a call of a payment tool, confirmed ones too, signs only
  -- payments in HBAR, on the configured network, of at most the configured amount each, provided
  -- the x402 client signs only options that the registered policy left.
  pub tools-Affordable :
      (action : PendingAction) (id : Text) (w : World)
      → Signs Affordable w (request_payment o config action w).1
        × Signs Affordable w (confirm_payment o config id w).1
  tools-Affordable action id w =
      ((request_payment-IsCareful action).apply w, (confirm_payment-IsCareful id).apply w)
