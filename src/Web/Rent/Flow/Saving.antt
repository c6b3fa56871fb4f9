-- ===== src/Web/Rent/Flow/Saving.antt =====
-- The session that is shown is the one that the browser keeps.
use mach.Base.{
  ℕ, ◌+◌, ◌≤◌, ◌≡◌, refl, Bool, true, false, not, Option, none, some, List, [], ◌∷◌, arith, if_both,
  if_second, ltb, Bool-cases, Option-cases, inl, inr,
}
use mach.Js.Text.{◌===◌}
use mach.Types.Node.{NodeListing}
use mach.Types.Session.{SessionState}
use mach.Web.Storage.{
  StoredSession, envelope, Browser, key_for, get_item, load_stored, load_session, save_session,
  clear_session,
}
use mach.Web.Storage.Keeping.{get_item-set_item}
use mach.Web.Rent.Session.{
  Page, over, spread, view_of, is_true, is_gone, end_remotely, OpenAnswer, TopUpAnswer, StopAnswer,
  PollAnswer, wants_top_up, threw, unreachable, unhealthy, opened, topped_up, refused, stopped,
  state,
}
use mach.Web.Rent.Flow.{
  hydrate, set_session, update, open_start, open_answered, open_finish, top_up_goes, top_up_start,
  top_up_finish, stop_start, stop_finish, poll, dismiss,
}
use mach.Web.Rent.Flow.Events.{
  Event, wait, mount, dismiss_click, stop_click, open_click, top_up_click, open_answer,
  top_up_answer, stop_answer, poll_answer, Scene, ask_top_up, react, step, run, first_scene,
  first_page,
}

-- A browser that stores what it is given.
abbrev Stores : Browser → Type 0
Stores b = (b.blocked ≡ false) × (b.full ≡ false)

save_session-Stores :
    (now : ℕ) (node_id : _) (s : StoredSession) (b : Browser)
    → Stores b
    → Stores (save_session now node_id s b)
      × (get_item (key_for node_id) (save_session now node_id s b).items ≡ some (envelope now s))
unfolding save_session
save_session-Stores now node_id s b (open_, room) =
    let got = get_item-set_item (key_for node_id) (envelope now s) b.items in
    rw (open_, room) ((refl, refl), got)

clear_session-Stores : (node_id : _) (b : Browser) → Stores b → Stores (clear_session node_id b)
unfolding clear_session
clear_session-Stores node_id b (open_, room) = rw open_ (refl, room)

load_session-Stores :
    (now : ℕ) (node_id : _) (b : Browser) → Stores b → Stores (load_session now node_id b).1
unfolding load_session load_stored
load_session-Stores now node_id b (open_, room) = ground arith

module _ (node : NodeListing) where
  abbrev pub Kept : ℕ → Page → Type 0
  Kept now p =
      Stores p.browser
      × ((s : StoredSession)
          → p.session ≡ some s
          → (at : ℕ) × (at ≤ now)
            × (get_item (key_for node.node_id) p.browser.items ≡ some (envelope at s)))

  set_session-Kept :
      (now : ℕ) (session : Option StoredSession) (p : Page)
      → p.hydrated ≡ true
      → Stores p.browser
      → Kept now (set_session node now session p)
  unfolding set_session
  set_session-Kept now none p y st = (st, λ s e. cc)
  set_session-Kept now (some s) p y st =
      let (st', got) = save_session-Stores now node.node_id s p.browser st in
      rw y (st', λ s' e. (now, omega arith, cc))

  later_Kept : (now d : ℕ) (p : Page) → Kept now p → Kept (now + d) p
  later_Kept now d p k = (k.0, λ s e. let (at, h, got) = k.1 s e in (at, omega arith, got))

  update-Kept :
      (now : ℕ) (updated : SessionState) (p : Page)
      → p.hydrated ≡ true
      → Kept now p
      → Kept now (update node now updated p)
  unfolding update
  update-Kept now updated p y k = elim (Option-cases p.session) [
    | inl e ↦ rw e (k.0, λ s f. cc)
    | inr (s, e) ↦ rw (e, update) (set_session-Kept now (some (spread s updated)) p y k.0)
  ]

  poll-Kept :
      (now : ℕ) (seen : StoredSession) (answer : PollAnswer) (p : Page)
      → p.hydrated ≡ true
      → Kept now p
      → Kept now (poll node now seen answer p)
  unfolding poll
  poll-Kept now seen threw p y k = k
  poll-Kept now seen (refused status) p y k = elim (Option-cases p.session) [
    | inl e ↦ rw e (k.0, λ s f. cc)
    | inr (s, e) ↦
        rw (e, poll)
          (if_both (Kept now) (not (is_gone status)) k (
            if_both (Kept now) (not (s.created.session_id === seen.created.session_id)) k (
              if_both (Kept now) (is_true s.ended_remotely) k
                (set_session-Kept now (some (end_remotely s)) p y k.0))))
  ]
  poll-Kept now seen (state updated) p y k = elim (Option-cases p.session) [
    | inl e ↦ rw e (k.0, λ s f. cc)
    | inr (s, e) ↦
        rw (e, poll)
          (if_both (Kept now) (not (s.created.session_id === seen.created.session_id)) k
            (set_session-Kept now (some (spread s updated)) p y k.0))
  ]

  hydrate-Kept : (now : ℕ) (p : Page) → Kept now p → Kept now (hydrate node now p)
  unfolding hydrate
  hydrate-Kept now p k =
      let (stored, browser) = load_session now node.node_id p.browser in
      let p' : Page = record p { hydrated = true; browser = browser } in
      set_session-Kept now (over stored p.session) p' refl
        (load_session-Stores now node.node_id p.browser k.0)

  open_finish-Kept :
      (now : ℕ) (answer : OpenAnswer) (p : Page)
      → p.hydrated ≡ true
      → Kept now p
      → Kept now (open_finish node now answer p)
  unfolding open_finish open_answered
  open_finish-Kept now (threw caught) p y k = k
  open_finish-Kept now (unreachable caught) p y k = k
  open_finish-Kept now (unhealthy status) p y k = k
  open_finish-Kept now (opened created) p y k =
      set_session-Kept now (some (view_of created)) p y k.0

  top_up_finish-Kept :
      (now : ℕ) (answer : TopUpAnswer) (p : Page)
      → p.hydrated ≡ true
      → Kept now p
      → Kept now (top_up_finish node now answer p)
  unfolding top_up_finish
  top_up_finish-Kept now (threw caught) p y k = k
  top_up_finish-Kept now (topped_up updated) p y k = update-Kept now updated p y k

  stop_finish-Kept :
      (now : ℕ) (answer : StopAnswer) (p : Page)
      → p.hydrated ≡ true
      → Kept now p
      → Kept now (stop_finish node now answer p)
  unfolding stop_finish
  stop_finish-Kept now (threw caught) p y k = k
  stop_finish-Kept now (refused status status_text) p y k = k
  stop_finish-Kept now (stopped updated) p y k = update-Kept now updated p y k

  stop_start-Kept : (now : ℕ) (p : Page) → Kept now p → Kept now (stop_start p)
  unfolding stop_start
  stop_start-Kept now p k = elim (Option-cases p.session) [
    | inl e ↦ rw e (k.0, λ s f. cc)
    | inr (s, e) ↦ elim (Option-cases s.created.token) [
      | inl t ↦ rw (e, t, stop_start) k
      | inr (t, same) ↦ rw (e, same, stop_start) (k.0, k.1)
    ]
  ]

  abbrev KeptIn : Scene → Type 0
  KeptIn w = Kept w.now w.page

  ask_top_up-Kept :
      (payer : Bool) (seen : Option StoredSession) (w : Scene)
      → KeptIn w
      → KeptIn (ask_top_up payer seen w)
  unfolding ask_top_up top_up_start
  ask_top_up-Kept payer seen w k =
      let goes = top_up_goes payer seen w.page in
      if_both KeptIn goes (if_both (Kept w.now) goes k k) k

  react-Kept : (e : Event) (w : Scene) → w.page.hydrated ≡ true → KeptIn w → KeptIn (react node e w)
  unfolding react dismiss open_start
  react-Kept (wait d) w y k = later_Kept w.now d w.page k
  react-Kept mount w y k = k
  react-Kept dismiss_click w y k = (clear_session-Stores node.node_id w.page.browser k.0, λ s f. cc)
  react-Kept stop_click w y k = stop_start-Kept w.now w.page k
  react-Kept (open_click payer) w y k = if_both (Kept w.now) payer k k
  react-Kept (top_up_click payer) w y k = ask_top_up-Kept payer w.page.session w k
  react-Kept (open_answer answer) w y k = open_finish-Kept w.now answer w.page y k
  react-Kept (top_up_answer answer) w y k =
      if_both KeptIn (ltb 0 w.top_ups) (top_up_finish-Kept w.now answer w.page y k) k
  react-Kept (stop_answer answer) w y k = stop_finish-Kept w.now answer w.page y k
  react-Kept (poll_answer payer cancelled seen answer) w y k =
      let polled : Scene = record w { page = poll node w.now seen answer w.page } in
      let after = poll-Kept w.now seen answer w.page y k in
      if_both KeptIn cancelled k (
        if_both KeptIn (wants_top_up payer answer) (ask_top_up-Kept payer (some seen) polled after)
          after)

  step-Kept : (e : Event) (w : Scene) → KeptIn w → KeptIn (step node e w)
  unfolding step
  step-Kept (wait d) w k = later_Kept w.now d w.page k
  step-Kept mount w k = if_both KeptIn w.page.hydrated k (hydrate-Kept w.now w.page k)
  step-Kept e w k = elim (Bool-cases w.page.hydrated) [
    | inl y ↦ if_both KeptIn w.page.hydrated (react-Kept e w y k) k
    | inr y ↦ if_second KeptIn w.page.hydrated _ y k
  ]

  run-Kept : (es : List Event) (w : Scene) → KeptIn w → KeptIn (run node es w)
  unfolding run
  run-Kept [] w k = k
  run-Kept (e ∷ es) w k = run-Kept es (step node e w) (step-Kept e w k)

-- In a browser that stores what it is given, the session that the page shows is the one that the
-- browser keeps for the node, whatever happened before.
pub run_shows_kept :
    (node : NodeListing) (es : List Event) (now : ℕ) (browser : Browser) (s : StoredSession)
    → browser.blocked ≡ false
    → browser.full ≡ false
    → (run node es (first_scene now browser)).page.session ≡ some s
    → let w = run node es (first_scene now browser) in
      (at : ℕ) × (at ≤ w.now)
      × (get_item (key_for node.node_id) w.page.browser.items ≡ some (envelope at s))
unfolding first_scene first_page
run_shows_kept node es now browser s open_ room shown =
    let (_, kept) = run-Kept node es (first_scene now browser) ((open_, room), λ s e. cc) in
    kept s shown
