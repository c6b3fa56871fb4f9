-- ===== src/Web/Rent/Flow/Events.antt =====
-- What happens to the page, one event at a time: clicks, answers to what was asked, and the clock.
-- Before the stored session has been looked for there is nothing to click.
use mach.Base.{ℕ, ◌+◌, ◌-◌, Bool, false, Option, none, some, List, [], ◌∷◌, if◌then◌else◌, ltb}
use mach.Types.Node.{NodeListing}
use mach.Web.Storage.{Browser, StoredSession}
use mach.Web.Rent.Session.{Page, OpenAnswer, TopUpAnswer, StopAnswer, PollAnswer, wants_top_up}
use mach.Web.Rent.Flow.{
  hydrate, open_start, open_finish, top_up_goes, top_up_start, top_up_finish, stop_start,
  stop_finish, poll, dismiss,
}

-- `payer` tells whether a wallet is connected. A poll belongs to the session that was shown when it
-- was set up, and its answer counts unless it was cancelled.
pub data Event : Type 0 where
  wait : ℕ → Event
  mount dismiss_click stop_click : Event
  open_click top_up_click : (payer : Bool) → Event
  open_answer : OpenAnswer → Event
  top_up_answer : TopUpAnswer → Event
  stop_answer : StopAnswer → Event
  poll_answer : (payer cancelled : Bool) → (seen : StoredSession) → PollAnswer → Event

-- The page at a time, with the number of payments for a top-up that are on their way.
pub record Scene : Type 0 where
  pub page : Page
  pub now : ℕ
  pub top_ups : ℕ

unfoldable pub ask_top_up : Bool → Option StoredSession → Scene → Scene
unfolding top_up_goes top_up_start
ask_top_up payer seen w =
    if top_up_goes payer seen w.page
    then record w { page = top_up_start payer seen w.page; top_ups = w.top_ups + 1 }
    else w

module _ (node : NodeListing) where
  -- An event on a page that is shown.
  unfoldable pub react : Event → Scene → Scene
  unfolding ask_top_up
  react (wait d) w = record w { now = w.now + d }
  react mount w = w
  react dismiss_click w = record w { page = dismiss node w.page }
  react stop_click w = record w { page = stop_start w.page }
  react (open_click payer) w = record w { page = open_start payer w.page }
  react (top_up_click payer) w = ask_top_up payer w.page.session w
  react (open_answer answer) w = record w { page = open_finish node w.now answer w.page }
  react (top_up_answer answer) w =
      if ltb 0 w.top_ups
      then record w { page = top_up_finish node w.now answer w.page; top_ups = w.top_ups - 1 }
      else w
  react (stop_answer answer) w = record w { page = stop_finish node w.now answer w.page }
  react (poll_answer payer cancelled seen answer) w =
      let polled : Scene = record w { page = poll node w.now seen answer w.page } in
      if cancelled
      then w
      else if wants_top_up payer answer
      then ask_top_up payer (some seen) polled
      else polled

  unfoldable pub step : Event → Scene → Scene
  unfolding react hydrate
  step (wait d) w = record w { now = w.now + d }
  step mount w = if w.page.hydrated then w else record w { page = hydrate node w.now w.page }
  step e w = if w.page.hydrated then react e w else w

  unfoldable pub run : List Event → Scene → Scene
  unfolding step
  run [] w = w
  run (e ∷ es) w = run es (step e w)

-- The page as it is first rendered.
unfoldable pub first_page : Browser → Page
first_page browser = record {
  hydrated = false;
  busy = none;
  error = none;
  session = none;
  topping_up = false;
  browser = browser;
}

unfoldable pub first_scene : ℕ → Browser → Scene
unfolding first_page
first_scene now browser = record { page = first_page browser; now = now; top_ups = 0 }
