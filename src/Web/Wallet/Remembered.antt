-- ===== src/Web/Wallet/Remembered.antt =====
-- The wallet that is connected is the one that a reload goes back to.
use mach.Base.{
  ◌≡◌, ◌∙◌, refl, sym, true, false, not, ◌&&◌, Option, none, some, List, [], ◌∷◌, arith, if_both,
  if_first, if_second, Bool-cases, Option-cases, inl, inr,
}
use mach.Js.Text.{Text}
use mach.Web.Wallet.{
  Connector, disconnected, connecting, connected, restore, Page, forget_connector, last_connector,
  find_connector, connect_start, disconnect, restore_from, restore_start, clickable, is_connected,
  Event, mount, disconnect_click, connect_click, answer, step, run, first_page,
}
use mach.Web.Wallet.Memory.{
  Agrees, Fresh, Sound, later-Fresh, connect_start-Sound, idle, forget_connector_lem, answer-Sound,
  both, disconnect-Sound,
}

quiet-Sound :
    (p : Page)
    → p.blocked ≡ false
    → p.state ≡ disconnected
    → p.pending ≡ none
    → p.restored ≡ true
    → Sound p
quiet-Sound p open_ state quiet late =
    let agrees : Agrees p.state p.remembered p.pending = rw state quiet in
    (open_, agrees, later-Fresh p late)

forget-Sound :
    (p : Page)
    → p.blocked ≡ false
    → p.state ≡ disconnected
    → p.pending ≡ none
    → p.restored ≡ true
    → Sound (forget_connector p)
forget-Sound p open_ state quiet late =
    let (open', same, state', quiet') = forget_connector_lem p open_ in
    quiet-Sound (forget_connector p) open' (state' ∙ state) (quiet' ∙ quiet) (same ∙ late)

last_connector_lem : (p : Page) → p.blocked ≡ false → last_connector p ≡ p.remembered
unfolding last_connector
last_connector_lem p h = ground arith

restore_from-Sound :
    (connectors : List Connector) (p : Page)
    → p.blocked ≡ false
    → p.state ≡ disconnected
    → p.pending ≡ none
    → p.restored ≡ true
    → Sound (restore_from connectors p)
unfolding restore_from
restore_from-Sound connectors p open_ state quiet late = elim (Option-cases (last_connector p)) [
  | inl e ↦ rw (e, restore_from) (quiet-Sound p open_ state quiet late)
  | inr (id, e) ↦ elim (Option-cases (find_connector id connectors)) [
    | inl f ↦ rw (e, f, restore_from) (forget-Sound p open_ state quiet late)
    | inr (c, f) ↦
        rw (e, f, restore_from)
          (if_both Sound (not c.available) (forget-Sound p open_ state quiet late) (
            open_,
            sym (last_connector_lem p open_) ∙ e,
            later-Fresh (record p { state = connecting id; pending = some (restore id) }) late,
          ))
  ]
]

restore_start-Sound :
    (connectors : List Connector) (p : Page) → Sound p → Sound (restore_start connectors p)
unfolding restore_start
restore_start-Sound connectors p h = elim (Bool-cases p.restored) [
  | inl late ↦ if_first Sound p.restored _ late h
  | inr early ↦
      let fresh : Fresh false p = rw early at h.2 in
      if_second Sound p.restored p early
        (restore_from-Sound connectors (record p { restored = true }) h.0 fresh.0 fresh.1 refl)
]

step-Sound :
    (connectors : List Connector) (e : Event) (p : Page) → Sound p → Sound (step connectors e p)
unfolding step
step-Sound connectors mount p h = restore_start-Sound connectors p h
step-Sound connectors disconnect_click p h =
    elim (Bool-cases (p.restored && is_connected p.state)) [
      | inl y ↦
          let (late, c) = both p.restored (is_connected p.state) y in
          if_first Sound (p.restored && is_connected p.state) p y (disconnect-Sound p h late c)
      | inr y ↦ if_second Sound (p.restored && is_connected p.state) (disconnect p) y h
    ]
step-Sound connectors (connect_click id) p h = elim (Bool-cases (p.restored && clickable p.state)) [
  | inl y ↦
      let (late, c) = both p.restored (clickable p.state) y in
      if_first Sound (p.restored && clickable p.state) p y
        (connect_start-Sound connectors id p h late (idle p h c))
  | inr y ↦ if_second Sound (p.restored && clickable p.state) (connect_start connectors id p) y h
]
step-Sound connectors (answer a) p h = answer-Sound p.pending a p h refl

run-Sound :
    (connectors : List Connector) (es : List Event) (p : Page)
    → Sound p
    → Sound (run connectors es p)
unfolding run
run-Sound connectors [] p h = h
run-Sound connectors (e ∷ es) p h =
    run-Sound connectors es (step connectors e p) (step-Sound connectors e p h)

-- Whatever clicks and answers came, a wallet that is shown as connected is the one that the
-- browser remembers, in a browser that stores what it is given.
pub run_remembers :
    (connectors : List Connector) (es : List Event) (remembered : Option Text)
    (id account_id : Text)
    → (run connectors es (first_page remembered)).state ≡ connected id account_id
    → last_connector (run connectors es (first_page remembered)) ≡ some id
run_remembers connectors es remembered id account_id e =
    let p = run connectors es (first_page remembered) in
    let h = run-Sound connectors es (first_page remembered) (refl, refl, (refl, refl)) in
    let agrees : Agrees (connected id account_id) p.remembered p.pending = rw e at h.1 in
    last_connector_lem p h.0 ∙ agrees.0
