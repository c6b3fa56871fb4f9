-- ===== src/Web/Rent/Flow/Ending.antt =====
-- The end of a session: what the page keeps of it, and that it stops asking.
use mach.Base.{
  ℕ, ◌≡◌, ◌∙◌, refl, Bool, true, false, not, Option, none, some, List, [], ◌∷◌, arith,
  if◌then◌else◌, if_both, if_first, ltb, All, Bool-cases, Option-cases, inl, inr,
}
use mach.Js.Text.{Text, ◌===◌}
use mach.Js.Text.Laws.{eq_refl}
use mach.Types.Node.{NodeListing}
use mach.Types.Session.{SessionState, is_session_terminal}
use mach.Web.Storage.{StoredSession}
use mach.Web.Rent.Session.{
  Page, spread, watch, is_true, is_gone, end_remotely, TopUpAnswer, StopAnswer, PollAnswer,
  wants_top_up, threw, topped_up, refused, stopped, state,
}
use mach.Web.Rent.Panel.{button, dismiss, actions}
use mach.Web.Rent.Panel.Offers.{ended_actions}
use mach.Web.Rent.Flow.{
  set_session, update, open_start, top_up_goes, top_up_start, top_up_finish, stop_start,
  stop_finish, poll,
}
use mach.Web.Rent.Flow.Events.{
  Event, wait, mount, dismiss_click, stop_click, open_click, top_up_click, open_answer,
  top_up_answer, stop_answer, poll_answer, Scene, ask_top_up, react, step, run,
}

end_remotely_terminal :
    (s : StoredSession) → is_session_terminal (end_remotely s).created.status ≡ true
unfolding end_remotely is_session_terminal
end_remotely_terminal s = elim (Bool-cases (is_session_terminal s.created.status)) [
  | inl e ↦ rw (e, if◌then◌else◌) e
  | inr e ↦ rw (e, if◌then◌else◌) refl
]

watch_ended : (s : StoredSession) → is_true s.ended_remotely ≡ true → watch s ≡ none
unfolding watch
watch_ended s e = ground (arith, e)

watch_open :
    (s : StoredSession) (every : ℕ) → watch s ≡ some every → is_true s.ended_remotely ≡ false
watch_open s every h = elim (Bool-cases (is_true s.ended_remotely)) [
  | inl e ↦ let stops = watch_ended s e in cc
  | inr e ↦ e
]

end_remotely_marks :
    (s : StoredSession)
    → (is_true (end_remotely s).ended_remotely ≡ true)
      × ((end_remotely s).created.token ≡ s.created.token)
      × ((end_remotely s).created.credit_tinybars ≡ s.created.credit_tinybars)
      × ((end_remotely s).burned_tinybars ≡ s.burned_tinybars)
unfolding end_remotely
end_remotely_marks s = (refl, refl, refl, refl)

-- When the node no longer answers for a session that the page asks about, the session stays with
-- its credit and what was burned, the page asks no more, and dismissing it is all that the panel
-- offers.
pub poll_gone :
    (node : NodeListing) (now every status : ℕ) (seen s : StoredSession) (p : Page)
    → p.session ≡ some s
    → watch s ≡ some every
    → s.created.session_id ≡ seen.created.session_id
    → is_gone status ≡ true
    → (s' : StoredSession) × ((poll node now seen (refused status) p).session ≡ some s')
      × (watch s' ≡ none)
      × (actions false s' ≡ button dismiss false ∷ [])
      × (s'.created.credit_tinybars ≡ s.created.credit_tinybars)
      × (s'.burned_tinybars ≡ s.burned_tinybars)
unfolding poll set_session
poll_gone node now every status seen s p shown asked same gone =
    let open_ = watch_open s every asked in
    let id : (s.created.session_id === seen.created.session_id) ≡ true =
      rw same (eq_refl seen.created.session_id) in
    let (ended, _, credit, burned) = end_remotely_marks s in
    (
      end_remotely s,
      rw shown (ground (arith, open_, id, gone)),
      watch_ended (end_remotely s) ended,
      ended_actions false (end_remotely s) (end_remotely_terminal s),
      credit,
      burned,
    )

-- The events that put another session in the place of the one shown.
abbrev pub starts_over : Event → Bool
starts_over dismiss_click = true
starts_over (open_answer answer) = true
starts_over _ = false

set_session-session :
    (node : NodeListing) (now : ℕ) (s : StoredSession) (p : Page)
    → ((set_session node now (some s) p).session ≡ some s)
      × ((set_session node now (some s) p).hydrated ≡ p.hydrated)
unfolding set_session
set_session-session node now s p = ground arith

module _ (node : NodeListing) (P : StoredSession → Type 0)
    (spread_keeps : (s : StoredSession) (u : SessionState) → P s → P (spread s u))
    (end_keeps : (s : StoredSession) → P s → P (end_remotely s)) where
  abbrev Shows : Page → Type 0
  Shows p = (p.hydrated ≡ true) × ((s : StoredSession) × (p.session ≡ some s) × P s)

  set_session-Shows :
      (now : ℕ) (s : StoredSession) (p : Page)
      → p.hydrated ≡ true
      → P s
      → Shows (set_session node now (some s) p)
  set_session-Shows now s p y h = let e = set_session-session node now s p in (e.1 ∙ y, (s, e.0, h))

  update-Shows :
      (now : ℕ) (updated : SessionState) (p : Page) → Shows p → Shows (update node now updated p)
  unfolding update
  update-Shows now updated p (y, (s, e, h)) =
      rw (e, update) (set_session-Shows now (spread s updated) p y (spread_keeps s updated h))

  poll-Shows :
      (now : ℕ) (seen : StoredSession) (answer : PollAnswer) (p : Page)
      → Shows p
      → Shows (poll node now seen answer p)
  unfolding poll
  poll-Shows now seen threw p sh = sh
  poll-Shows now seen (refused status) p (y, (s, e, h)) =
      let same : Shows p = (y, (s, e, h)) in
      rw (e, poll)
        (if_both Shows (not (is_gone status)) same (
          if_both Shows (not (s.created.session_id === seen.created.session_id)) same (
            if_both Shows (is_true s.ended_remotely) same
              (set_session-Shows now (end_remotely s) p y (end_keeps s h)))))
  poll-Shows now seen (state updated) p (y, (s, e, h)) =
      let same : Shows p = (y, (s, e, h)) in
      rw (e, poll)
        (if_both Shows (not (s.created.session_id === seen.created.session_id)) same
          (set_session-Shows now (spread s updated) p y (spread_keeps s updated h)))

  abbrev ShowsStill : Scene → Type 0
  ShowsStill w = Shows w.page

  ask_top_up-Shows :
      (payer : Bool) (seen : Option StoredSession) (w : Scene)
      → Shows w.page
      → Shows (ask_top_up payer seen w).page
  unfolding ask_top_up top_up_start
  ask_top_up-Shows payer seen w sh =
      if_both ShowsStill (top_up_goes payer seen w.page)
        (if_both Shows (top_up_goes payer seen w.page) sh sh) sh

  top_up_finish-Shows :
      (now : ℕ) (answer : TopUpAnswer) (p : Page)
      → Shows p
      → Shows (top_up_finish node now answer p)
  unfolding top_up_finish
  top_up_finish-Shows now (threw caught) p sh = sh
  top_up_finish-Shows now (topped_up updated) p sh = update-Shows now updated p sh

  stop_finish-Shows :
      (now : ℕ) (answer : StopAnswer) (p : Page) → Shows p → Shows (stop_finish node now answer p)
  unfolding stop_finish
  stop_finish-Shows now (threw caught) p sh = sh
  stop_finish-Shows now (refused status status_text) p sh = sh
  stop_finish-Shows now (stopped updated) p sh = update-Shows now updated p sh

  stop_start-Shows : (p : Page) → Shows p → Shows (stop_start p)
  unfolding stop_start
  stop_start-Shows p (y, (s, e, h)) = elim (Option-cases s.created.token) [
    | inl t ↦ rw (e, t, stop_start) (y, (s, e, h))
    | inr (t, same) ↦ rw (e, same, stop_start) (y, (s, e, h))
  ]

  react-Shows :
      (e : Event) (w : Scene) → starts_over e ≡ false → Shows w.page → Shows (react node e w).page
  unfolding react open_start
  react-Shows (wait d) w ok sh = sh
  react-Shows mount w ok sh = sh
  react-Shows dismiss_click w ok sh = cc
  react-Shows stop_click w ok sh = stop_start-Shows w.page sh
  react-Shows (open_click payer) w ok sh = if_both Shows payer sh sh
  react-Shows (top_up_click payer) w ok sh = ask_top_up-Shows payer w.page.session w sh
  react-Shows (open_answer answer) w ok sh = cc
  react-Shows (top_up_answer answer) w ok sh =
      if_both ShowsStill (ltb 0 w.top_ups) (top_up_finish-Shows w.now answer w.page sh) sh
  react-Shows (stop_answer answer) w ok sh = stop_finish-Shows w.now answer w.page sh
  react-Shows (poll_answer payer cancelled seen answer) w ok sh =
      let polled : Scene = record w { page = poll node w.now seen answer w.page } in
      let after = poll-Shows w.now seen answer w.page sh in
      if_both ShowsStill cancelled sh (
        if_both ShowsStill (wants_top_up payer answer)
          (ask_top_up-Shows payer (some seen) polled after) after)

  step-Shows :
      (e : Event) (w : Scene) → starts_over e ≡ false → Shows w.page → Shows (step node e w).page
  unfolding step
  step-Shows (wait d) w ok sh = sh
  step-Shows mount w ok sh = if_first ShowsStill w.page.hydrated _ sh.0 sh
  step-Shows e w ok sh = if_both ShowsStill w.page.hydrated (react-Shows e w ok sh) sh

  pub run-Shows :
      (es : List Event) (w : Scene)
      → All (λ e. starts_over e ≡ false) es
      → Shows w.page
      → Shows (run node es w).page
  unfolding run
  run-Shows [] w ok sh = sh
  run-Shows (e ∷ es) w ok sh = run-Shows es (step node e w) ok.1 (step-Shows e w ok.0 sh)

-- An ended session, with its token.
abbrev Ended : Option Text → StoredSession → Type 0
Ended token s = (is_true s.ended_remotely ≡ true) × (s.created.token ≡ token)

spread-Ended :
    (token : Option Text) (s : StoredSession) (u : SessionState)
    → Ended token s
    → Ended token (spread s u)
unfolding spread
spread-Ended token s u h = h

end_remotely-Ended :
    (token : Option Text) (s : StoredSession) → Ended token s → Ended token (end_remotely s)
end_remotely-Ended token s h = let (ended, same, _, _) = end_remotely_marks s in (ended, same ∙ h.1)

-- Once a session has ended remotely, and until it is dismissed or another one is opened, the page
-- shows it with its token and never asks the node about it again.
pub run_stays_ended :
    (node : NodeListing) (es : List Event) (w : Scene) (s : StoredSession)
    → w.page.hydrated ≡ true
    → w.page.session ≡ some s
    → is_true s.ended_remotely ≡ true
    → All (λ e. starts_over e ≡ false) es
    → (s' : StoredSession) × ((run node es w).page.session ≡ some s')
      × (watch s' ≡ none)
      × (s'.created.token ≡ s.created.token)
run_stays_ended node es w s y shown ended ok =
    let token = s.created.token in
    let (_, (s', e, h)) =
      run-Shows node (Ended token) (spread-Ended token) (end_remotely-Ended token) es w ok
        (y, (s, shown, (ended, refl))) in
    (s', e, watch_ended s' h.0, h.1)
