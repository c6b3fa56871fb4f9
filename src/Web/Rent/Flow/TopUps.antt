-- ===== src/Web/Rent/Flow/TopUps.antt =====
-- One top-up at a time, whoever asked for it.
use mach.Base.{
  ℕ, ◌≤◌, ◌≡◌, ◌∙◌, ap, sym, refl, Bool, false, Option, none, some, List, [], ◌∷◌, arith,
  if◌then◌else◌, if_both, Option-cases, inl, inr,
}
use mach.Types.Node.{NodeListing}
use mach.Types.Session.{SessionState}
use mach.Web.Storage.{Browser, StoredSession}
use mach.Web.Rent.Session.{
  Page, OpenAnswer, TopUpAnswer, StopAnswer, PollAnswer, wants_top_up, threw, opened, topped_up,
  refused, stopped, state,
}
use mach.Web.Rent.Flow.{
  hydrate, set_session, update, open_start, open_answered, open_finish, top_up_goes, top_up_start,
  top_up_finish, stop_start, stop_finish, poll, dismiss,
}
use mach.Web.Rent.Flow.Events.{
  Event, wait, mount, dismiss_click, stop_click, open_click, top_up_click, open_answer,
  top_up_answer, stop_answer, poll_answer, Scene, ask_top_up, react, step, run, first_scene,
}

set_session-topping_up :
    (node : NodeListing) (now : ℕ) (session : Option StoredSession) (p : Page)
    → (set_session node now session p).topping_up ≡ p.topping_up
unfolding set_session
set_session-topping_up node now none p = refl
set_session-topping_up node now (some s) p = ground arith

update-topping_up :
    (node : NodeListing) (now : ℕ) (updated : SessionState) (p : Page)
    → (update node now updated p).topping_up ≡ p.topping_up
unfolding update
update-topping_up node now updated p = elim (Option-cases p.session) [
  | inl e ↦ rw e refl
  | inr (s, e) ↦ ground (arith, e, set_session-topping_up node now)
]

poll-topping_up :
    (node : NodeListing) (now : ℕ) (seen : StoredSession) (answer : PollAnswer) (p : Page)
    → (poll node now seen answer p).topping_up ≡ p.topping_up
unfolding poll
poll-topping_up node now seen threw p = refl
poll-topping_up node now seen (refused status) p = elim (Option-cases p.session) [
  | inl e ↦ rw e refl
  | inr (s, e) ↦ ground (arith, e, set_session-topping_up node now)
]
poll-topping_up node now seen (state updated) p = elim (Option-cases p.session) [
  | inl e ↦ rw e refl
  | inr (s, e) ↦ ground (arith, e, set_session-topping_up node now)
]

abbrev Counted : Scene → Type 0
Counted w = w.top_ups ≡ (if w.page.topping_up then 1 else 0)

open_finish-topping_up :
    (node : NodeListing) (now : ℕ) (answer : OpenAnswer) (p : Page)
    → (open_finish node now answer p).topping_up ≡ p.topping_up
unfolding open_finish open_answered
open_finish-topping_up node now (opened created) p = ground (arith, set_session-topping_up node now)
open_finish-topping_up node now _ p = refl

stop_finish-topping_up :
    (node : NodeListing) (now : ℕ) (answer : StopAnswer) (p : Page)
    → (stop_finish node now answer p).topping_up ≡ p.topping_up
unfolding stop_finish
stop_finish-topping_up node now (stopped updated) p = update-topping_up node now updated p
stop_finish-topping_up node now _ p = refl

stop_start-topping_up : (p : Page) → (stop_start p).topping_up ≡ p.topping_up
unfolding stop_start
stop_start-topping_up p = ground arith

ask_top_up-Counted :
    (payer : Bool) (seen : Option StoredSession) (w : Scene)
    → Counted w
    → Counted (ask_top_up payer seen w)
unfolding ask_top_up top_up_goes top_up_start
ask_top_up-Counted payer seen w h = ground arith

-- Only a top-up and its answer move the flag.
kept :
    (w : Scene) (p' : Page)
    → Counted w
    → p'.topping_up ≡ w.page.topping_up
    → w.top_ups ≡ (if p'.topping_up then 1 else 0)
kept w p' h e = h ∙ ap (λ b. if b then 1 else 0) (sym e)

top_up_finish_clears :
    (node : NodeListing) (now : ℕ) (answer : TopUpAnswer) (p : Page)
    → (top_up_finish node now answer p).topping_up ≡ false
unfolding top_up_finish
top_up_finish_clears node now (threw caught) p = refl
top_up_finish_clears node now (topped_up updated) p = refl

react-Counted : (node : NodeListing) (e : Event) (w : Scene) → Counted w → Counted (react node e w)
unfolding react dismiss open_start
react-Counted node (wait d) w h = h
react-Counted node mount w h = h
react-Counted node dismiss_click w h = h
react-Counted node stop_click w h = kept w (stop_start w.page) h (stop_start-topping_up w.page)
react-Counted node (open_click payer) w h = ground arith
react-Counted node (top_up_click payer) w h = ask_top_up-Counted payer w.page.session w h
react-Counted node (open_answer answer) w h =
    kept w (open_finish node w.now answer w.page) h
      (open_finish-topping_up node w.now answer w.page)
react-Counted node (top_up_answer answer) w h =
    ground (arith, top_up_finish_clears node w.now answer w.page)
react-Counted node (stop_answer answer) w h =
    kept w (stop_finish node w.now answer w.page) h
      (stop_finish-topping_up node w.now answer w.page)
react-Counted node (poll_answer payer cancelled seen answer) w h =
    let page = poll node w.now seen answer w.page in
    let polled : Scene = record w { page = page } in
    let same = kept w page h (poll-topping_up node w.now seen answer w.page) in
    if_both Counted cancelled h (
      if_both Counted (wants_top_up payer answer) (ask_top_up-Counted payer (some seen) polled same)
        same)

hydrate-topping_up :
    (node : NodeListing) (now : ℕ) (p : Page) → (hydrate node now p).topping_up ≡ p.topping_up
unfolding hydrate
hydrate-topping_up node now p = ground (arith, set_session-topping_up node now)

step-Counted : (node : NodeListing) (e : Event) (w : Scene) → Counted w → Counted (step node e w)
unfolding step
step-Counted node (wait d) w h = h
step-Counted node mount w h =
    if_both Counted w.page.hydrated h
      (kept w (hydrate node w.now w.page) h (hydrate-topping_up node w.now w.page))
step-Counted node e w h = if_both Counted w.page.hydrated (react-Counted node e w h) h

run-Counted :
    (node : NodeListing) (es : List Event) (w : Scene) → Counted w → Counted (run node es w)
unfolding run
run-Counted node [] w h = h
run-Counted node (e ∷ es) w h = run-Counted node es (step node e w) (step-Counted node e w h)

-- However clicks, answers and polls follow on one another, the page has at most one payment for a
-- top-up on its way.
pub run_one_top_up :
    (node : NodeListing) (es : List Event) (now : ℕ) (browser : Browser)
    → (run node es (first_scene now browser)).top_ups ≤ 1
unfolding first_scene
run_one_top_up node es now browser =
    let h = run-Counted node es (first_scene now browser) refl in ground arith
