-- ===== src/Web/Wallet/Memory.antt =====
-- The state of the connection against what is remembered, along a click and an answer.
use mach.Base.{
  ◌≡◌, ◌∙◌, refl, Bool, true, false, ◌&&◌, Option, none, some, List, arith, Bool-cases,
  Option-cases, inl, inr,
}
use mach.Js.Text.{Text}
use mach.Web.Wallet.{
  Connector, WalletState, disconnected, connecting, connected, error, Pending, connect, restore,
  Page, Answer, signer, nothing, threw, remember_connector, forget_connector, find_connector,
  connect_start, connect_finish, disconnect, restore_finish, clickable, is_connected, finish,
}

-- What the state says of the memory and of the call that is waited for.
abbrev pub Agrees : WalletState → Option Text → Option Pending → Type 0
Agrees (connected id account_id) remembered pending = (remembered ≡ some id) × (pending ≡ none)
Agrees (connecting id) remembered (some (connect other)) = Unit {0}
Agrees (connecting id) remembered (some (restore other)) = remembered ≡ some other
Agrees (connecting id) remembered none = Unit {0}
Agrees _ remembered pending = pending ≡ none

-- Before the first effect, the page is as it was made.
abbrev pub Fresh : Bool → Page → Type 0
Fresh true p = Unit {0}
Fresh false p = (p.state ≡ disconnected) × (p.pending ≡ none)

abbrev pub Sound : Page → Type 0
Sound p = (p.blocked ≡ false) × Agrees p.state p.remembered p.pending × Fresh p.restored p

pub later-Fresh : (p : Page) → p.restored ≡ true → Fresh p.restored p
later-Fresh p e = rw e tt

pub connect_start-Sound :
    (connectors : List Connector) (id : Text) (p : Page)
    → Sound p
    → p.restored ≡ true
    → p.pending ≡ none
    → Sound (connect_start connectors id p)
unfolding connect_start
connect_start-Sound connectors id p h late none_ =
    elim (Option-cases (find_connector id connectors)) [
      | inl e ↦ rw (e, connect_start, late) (h.0, none_, tt)
      | inr (c, e) ↦ rw (e, connect_start, late) (h.0, tt, tt)
    ]

-- Where a button can be clicked, no call is waited for.
pub idle : (p : Page) → Sound p → clickable p.state ≡ true → p.pending ≡ none
idle p h c = by_state p.state p.pending refl refl
  where
    by_state :
        (s : WalletState) (q : Option Pending) → p.state ≡ s → p.pending ≡ q → p.pending ≡ none
    by_state disconnected q e f =
        let a : Agrees disconnected p.remembered p.pending = rw e at h.1 in a
    by_state (error m) q e f = let a : Agrees (error m) p.remembered p.pending = rw e at h.1 in a
    by_state (connecting id) q e f = absurd (ground (arith, e))
    by_state (connected id a) q e f = absurd (ground (arith, e))

waits_late : (p : Page) (k : Pending) → Sound p → p.pending ≡ some k → p.restored ≡ true
waits_late p k h e = elim (Bool-cases p.restored) [
  | inl late ↦ late
  | inr early ↦ let fresh : Fresh false p = rw early at h.2 in absurd (ground (arith, fresh.1, e))
]

remember_connector_lem :
    (id : Text) (p : Page)
    → p.blocked ≡ false
    → ((remember_connector id p).blocked ≡ false)
      × ((remember_connector id p).remembered ≡ some id)
      × ((remember_connector id p).restored ≡ p.restored)
unfolding remember_connector
remember_connector_lem id p h = ground arith

pub forget_connector_lem :
    (p : Page)
    → p.blocked ≡ false
    → ((forget_connector p).blocked ≡ false)
      × ((forget_connector p).restored ≡ p.restored)
      × ((forget_connector p).state ≡ p.state)
      × ((forget_connector p).pending ≡ p.pending)
unfolding forget_connector
forget_connector_lem p h = ground arith

restore_failed :
    (p p' : Page)
    → p.blocked ≡ false
    → p.restored ≡ true
    → p' ≡ record (forget_connector p) { state = disconnected; pending = none }
    → Sound p'
restore_failed p p' h late e =
    let (open_, same, _, _) = forget_connector_lem p h in
    rw e (
      open_,
      refl,
      later-Fresh (record (forget_connector p) { state = disconnected; pending = none })
          (same ∙ late),
    )

restores_remembered :
    (s : WalletState) (r : Option Text) (id : Text) → Agrees s r (some (restore id)) → r ≡ some id
restores_remembered (connecting other) r id h = h
restores_remembered (connected other acc) r id h = absurd (cc h.1)
restores_remembered disconnected r id h = absurd (cc h)
restores_remembered (error m) r id h = absurd (cc h)

gives_up :
    (s : WalletState) (r : Option Text) (id : Text)
    → Agrees s r (some (connect id))
    → Agrees s r none
gives_up (connecting other) r id h = tt
gives_up (connected other acc) r id h = absurd (cc h.1)
gives_up disconnected r id h = absurd (cc h)
gives_up (error m) r id h = absurd (cc h)

pub answer-Sound :
    (q : Option Pending) (a : Answer) (p : Page) → Sound p → p.pending ≡ q → Sound (finish q a p)
unfolding connect_finish restore_finish
answer-Sound none a p h e = h
answer-Sound (some (connect id)) (signer acc) p h e =
    let (open_, kept, same) = remember_connector_lem id p h.0 in
    let late = waits_late p (connect id) h e in
    (
      open_,
      (kept, refl),
      later-Fresh (record (remember_connector id p) { state = connected id acc; pending = none })
          (same ∙ late),
    )
answer-Sound (some (connect id)) nothing p h e =
    let agrees : Agrees p.state p.remembered (some (connect id)) = rw e at h.1 in
    (
      h.0,
      gives_up p.state p.remembered id agrees,
      later-Fresh (record p { pending = none }) (waits_late p (connect id) h e),
    )
answer-Sound (some (connect id)) (threw m) p h e = (
  h.0,
  refl,
  later-Fresh (record p { state = error m; pending = none }) (waits_late p (connect id) h e),
)
answer-Sound (some (restore id)) (signer acc) p h e =
    let agrees : Agrees p.state p.remembered (some (restore id)) = rw e at h.1 in
    (
      h.0,
      (restores_remembered p.state p.remembered id agrees, refl),
      later-Fresh (record p { state = connected id acc; pending = none })
          (waits_late p (restore id) h e),
    )
answer-Sound (some (restore id)) nothing p h e =
    restore_failed p _ h.0 (waits_late p (restore id) h e) refl
answer-Sound (some (restore id)) (threw m) p h e =
    restore_failed p _ h.0 (waits_late p (restore id) h e) refl

pub both : (a b : Bool) → (a && b) ≡ true → (a ≡ true) × (b ≡ true)
both true b h = (refl, h)
both false b h = absurd (cc h)

pub disconnect-Sound :
    (p : Page) → Sound p → p.restored ≡ true → is_connected p.state ≡ true → Sound (disconnect p)
unfolding disconnect
disconnect-Sound p h late c =
    let (open_, same, _, quiet) = forget_connector_lem p h.0 in
    let none_ : p.pending ≡ none = at_rest p.state p.remembered p.pending h.1 c in
    (
      open_,
      quiet ∙ none_,
      later-Fresh (record (forget_connector p) { state = disconnected }) (same ∙ late),
    )
  where
    at_rest :
        (s : WalletState) (r : Option Text) (q : Option Pending)
        → Agrees s r q
        → is_connected s ≡ true
        → q ≡ none
    at_rest (connected id acc) r q h c = h.1
    at_rest disconnected r q h c = absurd (cc c)
    at_rest (connecting id) r q h c = absurd (cc c)
    at_rest (error m) r q h c = absurd (cc c)
