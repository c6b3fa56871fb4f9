-- ===== src/Mcp/Tools/Careful.antt =====
-- Relations between the worlds before and after a call, step by step through the tools.
use mach.Base.{
  suc, ◌+◌, ◌==◌, not, ◌≡◌, ◌∙◌, refl, sym, ap, if◌then◌else◌, Bool, true, false, Option, none,
  some, List, [], ◌∷◌, ◌++◌, append-nil, append_assoc, All, All-append, arith,
}
use mach.Base.Int.{ℤ}
use mach.Js.Text.{Text}
use mach.Mcp.World.{
  Requirements, HttpRequest, Outside, World, M, Result, ok, err, Error, PendingAction, open_session,
  top_up_session, continue, lift, or_throw, fetch_failed, keygen_failed, Settlement, Body, Header,
  absent, garbled, held, ◌>>=◌, Response,
}
use mach.Mcp.Payer.{acceptable, check_settlement}
use mach.Mcp.Payer.Policy.{IsAffordable, acceptable_iff}
use mach.Mcp.Config.{McpConfig}
use mach.Mcp.Client
use mach.Mcp.Tools.{
  create_ssh_identity, create_payer, save_certificate, quote_open_session, quote_top_up, quote,
}
use mach.Mcp.Receipt.{record_spend, log_audit}
use mach.Mcp.Limits.{check_daily_cap, hold_for_confirmation, take_confirmed_action}

-- The world after a call has signed some more options, each of them with `P`.
abbrev pub Signs : (Requirements → Type 0) → World → World → Type 0
Signs P w w' = (signed : List Requirements) × (w'.paid ≡ w.paid ++ signed) × All P signed

pub Signs_none : {P : Requirements → Type 0} (w w' : World) → w'.paid ≡ w.paid → Signs P w w'
Signs_none w w' e = ([], e ∙ sym (append-nil w.paid), tt)

pub Signs-trans :
    {P : Requirements → Type 0} (u v w : World) → Signs P u v → Signs P v w → Signs P u w
Signs-trans {P} u v w (xs, e, h) (ys, e', h') =
    (xs ++ ys, e' ∙ ap (λ t. t ++ ys) e ∙ append_assoc u.paid xs ys, All-append P xs ys h h')

pub or_throw_world : {A : Type 0} (a : Option A) (e : Error) (w : World) → (or_throw a e w).1 ≡ w
or_throw_world none e w = refl
or_throw_world (some a) e w = refl

-- A relation between the worlds before and after, which calls that sign nothing and leave the
-- holds alone keep, and which calls in a row keep.
pub record Frame (R : World → World → Type 0) : Type 0 where
  pub still : (w w' : World) → w'.paid ≡ w.paid → w'.holds ≡ w.holds → R w w'
  pub both : (u v w : World) → R u v → R v w → R u w

-- Whatever the world, the call keeps the relation.
pub record IsCareful (R : World → World → Type 0) {A : Type 0} (m : M A) : Type 0 where
  pub apply : (w : World) → R w (m w).1

module _ {R : World → World → Type 0} ⦃frame : Frame R⦄ where
  pub continue_keeps :
      {A B : Type 0} (r : Result A) (f : A → M B) (w : World)
      → ((a : A) → IsCareful R (f a))
      → R w (continue r f w).1
  continue_keeps (ok a) f w h = (h a).apply w
  continue_keeps (err e) f w h = frame.still w w refl refl

  pub bind-IsCareful :
      {A B : Type 0} {m : M A} {f : A → M B}
      → IsCareful R m
      → ((a : A) → IsCareful R (f a))
      → IsCareful R (m >>= f)
  bind-IsCareful {m} {f} h k = record {
    apply = λ w.
        frame.both w (m w).1 (continue (m w).0 f (m w).1).1 (h.apply w)
          (continue_keeps (m w).0 f (m w).1 k);
  }

  pub lift-IsCareful : {A : Type 0} {r : Result A} → IsCareful R (lift r)
  lift-IsCareful = record { apply = λ w. frame.still w w refl refl }

  pub if-IsCareful :
      {A : Type 0} (b : Bool) {m k : M A}
      → IsCareful R m
      → IsCareful R k
      → IsCareful R (if b then m else k)
  if-IsCareful true h g = h
  if-IsCareful false h g = g

  pub or_throw-IsCareful :
      {A : Type 0} (m : M A) (f : World → Option A) (g : World → World) (e : Error)
      → ((w : World) → m w ≡ or_throw (f w) e (g w))
      → ((w : World) → (g w).paid ≡ w.paid)
      → ((w : World) → (g w).holds ≡ w.holds)
      → IsCareful R m
  or_throw-IsCareful m f g e same kept kept' = record {
    apply = λ w.
        let after : (m w).1 ≡ g w = ap (λ r. r.1) (same w) ∙ or_throw_world (f w) e (g w) in
        frame.still w (m w).1 (ap (λ v. v.paid) after ∙ kept w) (ap (λ v. v.holds) after ∙ kept' w);
  }

  pub fetch-IsCareful : (o : Outside) (request : HttpRequest) → IsCareful R (Client.fetch o request)
  unfolding Client.fetch
  fetch-IsCareful o request =
      or_throw-IsCareful (Client.fetch o request) (λ w. o.fetch w.calls request)
        (λ w. record w { now = w.now + o.elapsed w.calls; calls = suc w.calls }) fetch_failed
        (λ w. refl) (λ w. refl) (λ w. refl)

  pub challenge_of-IsCareful :
      (what : Text) (h : Header (List Requirements)) → IsCareful R (Client.challenge_of what h)
  challenge_of-IsCareful what absent = lift-IsCareful
  challenge_of-IsCareful what garbled = lift-IsCareful
  challenge_of-IsCareful what (held accepts) = lift-IsCareful

  pub decode_challenge-IsCareful :
      (r : Response) (what : Text) → IsCareful R (Client.decode_challenge r what)
  unfolding Client.decode_challenge
  decode_challenge-IsCareful r what =
      if-IsCareful (not (r.status == 402)) lift-IsCareful
        (challenge_of-IsCareful what r.payment_required)

  pub create_ssh_identity-IsCareful : (o : Outside) → IsCareful R (create_ssh_identity o)
  unfolding create_ssh_identity
  create_ssh_identity-IsCareful o =
      or_throw-IsCareful (create_ssh_identity o) (λ w. o.ssh_keygen w.calls)
        (λ w. record w { calls = suc w.calls }) keygen_failed (λ w. refl) (λ w. refl) (λ w. refl)

  -- Asking for a price signs nothing.
  pub quote-IsCareful :
      (o : Outside) (config : McpConfig) (action : PendingAction)
      → IsCareful R (quote o config action)
  unfolding quote quote_open_session quote_top_up Client.quote_session Client.quote_top_up
  quote-IsCareful o config (open_session node_url seconds require_gpu local_port) =
      bind-IsCareful (create_ssh_identity-IsCareful o) (λ identity.
        bind-IsCareful (bind-IsCareful (fetch-IsCareful o _) (λ r. decode_challenge-IsCareful r _))
          (λ challenge. lift-IsCareful))
  quote-IsCareful o config (top_up_session node_url session_id token) =
      bind-IsCareful (bind-IsCareful (fetch-IsCareful o _) (λ r. decode_challenge-IsCareful r _))
        (λ challenge. lift-IsCareful)

  pub as_session-IsCareful : (b : Body) → IsCareful R (Client.as_session b)
  unfolding Client.as_session
  as_session-IsCareful (Body.created s) = lift-IsCareful
  as_session-IsCareful (Body.plain t) = lift-IsCareful
  as_session-IsCareful _ = lift-IsCareful

  pub as_state-IsCareful : (b : Body) → IsCareful R (Client.as_state b)
  unfolding Client.as_state
  as_state-IsCareful (Body.state s) = lift-IsCareful
  as_state-IsCareful (Body.plain t) = lift-IsCareful
  as_state-IsCareful _ = lift-IsCareful

  pub create_payer-IsCareful : (o : Outside) → IsCareful R (create_payer o)
  unfolding create_payer
  create_payer-IsCareful o = record {
    apply = λ w. frame.still w (create_payer o w).1 (ground arith) (ground arith);
  }

  pub save_certificate-IsCareful : (o : Outside) → IsCareful R (save_certificate o)
  unfolding save_certificate
  save_certificate-IsCareful o = record {
    apply = λ w. frame.still w (save_certificate o w).1 (ground arith) (ground arith);
  }

  pub record_spend-IsCareful :
      (s : Settlement) (node_url : Text) (id : Option Text) (amount : Text)
      → IsCareful R (record_spend s node_url id amount)
  unfolding record_spend
  record_spend-IsCareful s node_url id amount = record {
    apply =
        λ w. frame.still w (record_spend s node_url id amount w).1 (ground arith) (ground arith);
  }

  pub log_audit-IsCareful :
      (tool node_url id : Text) (amount : Option Text) (outcome : Text)
      → IsCareful R (log_audit tool node_url id amount outcome)
  unfolding log_audit
  log_audit-IsCareful tool node_url id amount outcome = record {
    apply = λ w.
        frame.still w (log_audit tool node_url id amount outcome w).1 (ground arith) (ground arith);
  }

  pub check_daily_cap-IsCareful :
      (config : McpConfig) (amount : ℤ) → IsCareful R (check_daily_cap config amount)
  unfolding check_daily_cap
  check_daily_cap-IsCareful config amount = record {
    apply = λ w. frame.still w (check_daily_cap config amount w).1 (ground arith) (ground arith);
  }

  pub check_settlement-IsCareful :
      (r : Response) (s : Header Settlement) → IsCareful R (check_settlement r s)
  check_settlement-IsCareful r absent = lift-IsCareful
  check_settlement-IsCareful r garbled = lift-IsCareful
  check_settlement-IsCareful r (held s) = if-IsCareful (not s.success) lift-IsCareful lift-IsCareful

instance abbrev pub Signs_frame : {P : Requirements → Type 0} → Frame (Signs P)
Signs_frame = record { still = λ w w' e e'. Signs_none w w' e; both = Signs-trans }

-- Nothing signed, and the holds left alone.
abbrev pub Quiet : World → World → Type 0
Quiet w w' = (w'.paid ≡ w.paid) × (w'.holds ≡ w.holds)

instance abbrev pub Quiet_frame : Frame Quiet
Quiet_frame = record { still = λ w w' e e'. (e, e'); both = λ u v w h k. (k.0 ∙ h.0, k.1 ∙ h.1) }

-- The same, with the holds left alone.
abbrev pub Runs : (Requirements → Type 0) → World → World → Type 0
Runs P w w' = Signs P w w' × (w'.holds ≡ w.holds)

instance abbrev pub Runs_frame : {P : Requirements → Type 0} → Frame (Runs P)
Runs_frame = record {
  still = λ w w' e e'. (Signs_none w w' e, e');
  both = λ u v w h k. (Signs-trans u v w h.0 k.0, k.1 ∙ h.1);
}

module _ {P : Requirements → Type 0} where
  pub hold_for_confirmation-IsCareful :
      (o : Outside) (amount : ℤ) (action : PendingAction)
      → IsCareful (Signs P) (hold_for_confirmation o amount action)
  unfolding hold_for_confirmation
  hold_for_confirmation-IsCareful o amount action = record {
    apply = λ w. Signs_none w (hold_for_confirmation o amount action w).1 refl;
  }

  pub take_confirmed_action-IsCareful : (id : Text) → IsCareful (Signs P) (take_confirmed_action id)
  unfolding take_confirmed_action
  take_confirmed_action-IsCareful id = record {
    apply = λ w. Signs_none w (take_confirmed_action id w).1 (ground arith);
  }

pub All-acceptable :
    (network : Text) (max : ℤ) (signed : List Requirements)
    → All (λ r. acceptable network max r ≡ true) signed
    → All (IsAffordable network max) signed
All-acceptable network max [] h = tt
All-acceptable network max (r ∷ rs) h =
    ((acceptable_iff network max r).0 h.0, All-acceptable network max rs h.1)
