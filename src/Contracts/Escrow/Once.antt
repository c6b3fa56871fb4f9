-- ===== src/Contracts/Escrow/Once.antt =====
-- A session that was settled never changes again.
use mach.Base.{
  ℕ, ◌+◌, ◌≡◌, ◌≢◌, ◌∙◌, ◌⊎◌, ap, refl, Bool, true, false, List, [], ◌∷◌, arith, ◌==◌, ==_iff,
  Bool-cases, inl, inr,
}
use mach.Contracts.Escrow.{
  Session, no_session, Entry, get, put, Revert, already_settled, Result, ok, revert, check, Escrow,
  Message, session_of, open_session, top_up, settle, withdraw, Call, opening, topping_up, settling,
  withdrawing, call, Sent, or_keep, run,
}
use mach.Contracts.Escrow.Solvency.{settle_inv}
use mach.Contracts.Escrow.Debts.{pay_some-sessions, bind_ok}

get-put :
    {A : Type 0} (default : A) (key other : ℕ) (value : A) (es : List (Entry A))
    → (other == key) ≡ false
    → get default key (put other value es) ≡ get default key es
get-put default key other value [] h = rw (h, get) refl
get-put default key other value (e ∷ es) h = elim (Bool-cases (e.key == other)) [
  | inl same ↦
      let differs : (e.key == key) ≡ false = ground (arith, same, h) in
      rw (same, differs, put) (rw h refl)
  | inr differs ↦ let ih = get-put default key other value es h in ground (arith, differs, ih)
]

abbrev IsOver : ℕ → Escrow → Type 0
IsOver id c = ((session_of id c).renter ≢ 0) × ((session_of id c).settled ≡ true)

-- A call that needs the session `other` to be open leaves a settled one alone.
apart :
    (id other : ℕ) (c : Escrow)
    → IsOver id c
    → ((session_of other c).settled ≡ false) ⊎ ((session_of other c).renter ≡ 0)
    → (other == id) ≡ false
apart id other c over free = elim (Bool-cases (other == id)) [
  | inr differs ↦ differs
  | inl same ↦
      let e : other ≡ id = (==_iff other id).0 same in
      let there : (session_of other c).renter ≢ 0 = rw e over.0 in
      let done : (session_of other c).settled ≡ true = rw e over.1 in absurd (ground arith)
]

call-same :
    (accepts : ℕ → Bool) (m : Message) (k : Call) (id : ℕ) (c c' : Escrow)
    → IsOver id c
    → call accepts m k c ≡ ok c'
    → session_of id c' ≡ session_of id c
unfolding call open_session top_up withdraw
call-same accepts m (opening other provider price duration) id c c' over h =
    let free : (session_of other c).renter ≡ 0 = ground (arith, h) in
    let s : Session = record {
      renter = m.sender;
      provider = provider;
      price_per_second = price;
      start_time = m.timestamp;
      duration = duration;
      deposited = m.value;
      settled = false;
    } in
    let put_ : c'.sessions ≡ put other s c.sessions = ground (arith, h) in
    ap (get no_session id) put_
    ∙ get-put no_session id other s c.sessions (apart id other c over (inr free))
call-same accepts m (topping_up other added) id c c' over h =
    let old = session_of other c in
    let live : old.settled ≡ false = ground (arith, h) in
    let s : Session = record old {
      duration = old.duration + added;
      deposited = old.deposited + m.value;
    } in
    let put_ : c'.sessions ≡ put other s c.sessions = ground (arith, h) in
    ap (get no_session id) put_
    ∙ get-put no_session id other s c.sessions (apart id other c over (inl live))
call-same accepts m (settling other) id c c' over h =
    let (_, h', _) = bind_ok (check (m.value == 0) Revert.panic) _ h in
    let (_, live, (q, _, (c₂, p, r))) = settle_inv accepts m other c c' h' in
    let s = session_of other c in
    let kept =
      pay_some-sessions accepts s.renter q.refund_amount c₂ c' r
      ∙ pay_some-sessions accepts s.provider q.provider_amount _ c₂ p in
    ap (get no_session id) kept
    ∙ get-put no_session id other _ c.sessions (apart id other c over (inl live))
call-same accepts m withdrawing id c c' over h =
    let same : c'.sessions ≡ c.sessions = ground (arith, h) in ap (get no_session id) same

or_keep-same :
    (id : ℕ) (c : Escrow) (r : Result Escrow)
    → ((c' : Escrow) → r ≡ ok c' → session_of id c' ≡ session_of id c)
    → session_of id (or_keep c r) ≡ session_of id c
or_keep-same id c (ok c') h = h c' refl
or_keep-same id c (revert e) h = refl

run-same :
    (sent : List Sent) (id : ℕ) (c : Escrow)
    → IsOver id c
    → session_of id (run sent c) ≡ session_of id c
unfolding run
run-same [] id c over = refl
run-same (t ∷ sent) id c over =
    let c' = or_keep c (call t.accepts t.message t.call c) in
    let e =
      or_keep-same id c (call t.accepts t.message t.call c)
        (λ d h. call-same t.accepts t.message t.call id c d over h) in
    run-same sent id c' (rw e over) ∙ e

get-put_same :
    {A : Type 0} (default : A) (key : ℕ) (value : A) (es : List (Entry A))
    → get default key (put key value es) ≡ value
get-put_same default key value [] = let e : (key == key) ≡ true = ground arith in rw (e, get) refl
get-put_same default key value (e ∷ es) = elim (Bool-cases (e.key == key)) [
  | inl same ↦ let self : (key == key) ≡ true = ground arith in rw (same, put) (rw self refl)
  | inr differs ↦ let ih = get-put_same default key value es in ground (arith, differs, ih)
]

settle-settles :
    (accepts : ℕ → Bool) (m : Message) (id : ℕ) (c c' : Escrow)
    → settle accepts m id c ≡ ok c'
    → session_of id c' ≡ record (session_of id c) { settled = true }
settle-settles accepts m id c c' h =
    let s = session_of id c in
    let (_, _, (q, _, (c₂, p, r))) = settle_inv accepts m id c c' h in
    let kept =
      pay_some-sessions accepts s.renter q.refund_amount c₂ c' r
      ∙ pay_some-sessions accepts s.provider q.provider_amount _ c₂ p in
    ap (get no_session id) kept
    ∙ get-put_same no_session id (record s { settled = true }) c.sessions

settle_refused :
    (accepts : ℕ → Bool) (m : Message) (id : ℕ) (c : Escrow)
    → IsOver id c
    → settle accepts m id c ≡ revert already_settled
unfolding settle
settle_refused accepts m id c (held, done) = ground (arith, held)

-- After a settlement that went through, and any further calls, the session is as it was but
-- settled, and settling it again is refused as such.
pub settles_once :
    (before after : ℕ → Bool) (m n : Message) (id : ℕ) (c c' : Escrow) (sent : List Sent)
    → settle before m id c ≡ ok c'
    → (session_of id (run sent c') ≡ record (session_of id c) { settled = true })
      × (settle after n id (run sent c') ≡ revert already_settled)
settles_once before after m n id c c' sent h =
    let put_ = settle-settles before m id c c' h in
    let (held, _, _) = settle_inv before m id c c' h in
    let over : IsOver id c' = rw put_ (λ z. ground (arith, held, z), refl) in
    let e = run-same sent id c' over in
    (e ∙ put_, settle_refused after n id (run sent c') (rw e over))
