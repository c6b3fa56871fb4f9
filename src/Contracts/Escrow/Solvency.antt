-- ===== src/Contracts/Escrow/Solvency.antt =====
-- The contract holds what it owes.
use mach.Base.{
  ℕ, ◌-◌, ◌≤◌, ◌≡◌, ◌≢◌, ◌∙◌, refl, Bool, true, false, not, List, [], ◌∷◌, arith, ◌==◌, All,
}
use mach.Contracts.Escrow.{
  Session, put, Revert, Result, ok, revert, check, Escrow, Message, session_of, pending_of,
  set_session, pay_some, Quote, split, settle, withdraw, Call, opening, topping_up, settling,
  withdrawing, call, Sent, or_keep, run, deployed,
}
use mach.Contracts.Escrow.Debts.{
  owed, total-put, IsSolvent, set_session-debts, pay_some-debts, Good, put-Each, IsValid,
  session_of-Good, open_session-IsValid, top_up-IsValid, pay_some-sessions, split-deposited,
  bind_ok,
}

-- What a settlement that goes through has done.
pub settle_inv :
    (accepts : ℕ → Bool) (m : Message) (id : ℕ) (c c' : Escrow)
    → settle accepts m id c ≡ ok c'
    → let s = session_of id c in
      let c₁ = set_session id (record s { settled = true }) c in
      ((s.renter == 0) ≡ false)
      × (s.settled ≡ false)
      × ((q : Quote) × (split m.timestamp s ≡ ok q)
          × ((c₂ : Escrow) × (pay_some accepts s.provider q.provider_amount c₁ ≡ ok c₂)
              × (pay_some accepts s.renter q.refund_amount c₂ ≡ ok c')))
unfolding settle
settle_inv accepts m id c c' h =
    let s = session_of id c in
    let (_, h₁, held) = bind_ok (check (not (s.renter == 0)) Revert.no_such_session) _ h in
    let (_, h₂, live) = bind_ok (check (not s.settled) Revert.already_settled) _ h₁ in
    let (q, h₃, e) = bind_ok (split m.timestamp s) _ h₂ in
    let (c₂, r, p) = bind_ok (pay_some accepts s.provider q.provider_amount _) _ h₃ in
    (ground (arith, held), ground (arith, live), (q, e, (c₂, p, r)))

settle-IsValid :
    (accepts : ℕ → Bool) (m : Message) (id : ℕ) (c c' : Escrow)
    → IsValid c
    → settle accepts m id c ≡ ok c'
    → IsValid c'
settle-IsValid accepts m id c c' v h =
    let s = session_of id c in
    let done : Session = record s { settled = true } in
    let c₁ = set_session id done c in
    let (held, live, (q, e, (c₂, p, r))) = settle_inv accepts m id c c' h in
    let moved = set_session-debts id done c in
    let (adds_up, _, _) = split-deposited m.timestamp s q e in
    let first = pay_some-debts accepts s.provider q.provider_amount c₁ c₂ p in
    let second = pay_some-debts accepts s.renter q.refund_amount c₂ c' r in
    let had : owed s ≡ s.deposited = ground (arith, live) in
    let kept =
      pay_some-sessions accepts s.renter q.refund_amount c₂ c' r
      ∙ pay_some-sessions accepts s.provider q.provider_amount c₁ c₂ p in
    (
      rw kept (put-Each Good id done c.sessions (session_of-Good id c v) v.0),
      omega (arith, moved, v.1, adds_up, first, second, had),
    )

withdraw-IsValid :
    (accepts : ℕ → Bool) (m : Message) (c c' : Escrow)
    → IsValid c
    → withdraw accepts m c ≡ ok c'
    → IsValid c'
unfolding withdraw
withdraw-IsValid accepts m c c' v h =
    let moved = total-put (λ n. n) 0 m.sender 0 c.pending_withdrawal refl in
    let covers : pending_of m.sender c ≤ c.balance = ground (arith, h) in
    let same : c' ≡ record c {
      pending_withdrawal = put m.sender 0 c.pending_withdrawal;
      balance = c.balance - pending_of m.sender c;
    } =
      ground (arith, h) in
    rw same (v.0, omega (arith, moved, v.1, covers))

call-IsValid :
    (accepts : ℕ → Bool) (m : Message) (k : Call) (c c' : Escrow)
    → m.sender ≢ 0
    → IsValid c
    → call accepts m k c ≡ ok c'
    → IsValid c'
unfolding call
call-IsValid accepts m (opening id provider price duration) c c' z v h =
    open_session-IsValid m id provider price duration c c' z v h
call-IsValid accepts m (topping_up id added) c c' z v h = top_up-IsValid m id added c c' v h
call-IsValid accepts m (settling id) c c' z v h =
    settle-IsValid accepts m id c c' v (bind_ok (check (m.value == 0) Revert.panic) _ h).1
call-IsValid accepts m withdrawing c c' z v h =
    withdraw-IsValid accepts m c c' v (bind_ok (check (m.value == 0) Revert.panic) _ h).1

or_keep-IsValid :
    (c : Escrow) (r : Result Escrow)
    → IsValid c
    → ((c' : Escrow) → r ≡ ok c' → IsValid c')
    → IsValid (or_keep c r)
or_keep-IsValid c (ok c') v h = h c' refl
or_keep-IsValid c (revert e) v h = v

pub run-IsValid :
    (sent : List Sent) (c : Escrow)
    → All (λ t. t.message.sender ≢ 0) sent
    → IsValid c
    → IsValid (run sent c)
unfolding run
run-IsValid [] c z v = v
run-IsValid (t ∷ sent) c z v =
    run-IsValid sent (or_keep c (call t.accepts t.message t.call c)) z.1 (
      or_keep-IsValid c (call t.accepts t.message t.call c) v
        (λ c' h. call-IsValid t.accepts t.message t.call c c' z.0 v h))

-- Whatever calls the contract gets, its balance is exactly the deposits of the unsettled sessions
-- and the payouts that were refused, provided no call comes from the zero address.
pub run-IsSolvent :
    (sent : List Sent) → All (λ t. t.message.sender ≢ 0) sent → IsSolvent (run sent deployed)
run-IsSolvent sent z = (run-IsValid sent deployed z (tt, refl)).1
