-- ===== src/Contracts/Escrow/Settling.antt =====
-- A settlement: that it goes through, happens once, and refunds the more the earlier it comes.
use native.Mathlib.Nat.{mul-le-mul_left}
use mach.Base.{
  ℕ, ◌+◌, ◌-◌, ◌*◌, ◌≤◌, ◌<◌, ◌≡◌, ◌≢◌, refl, Bool, true, false, ◌&&◌, List, [], ◌∷◌, arith,
  if◌then◌else◌, ltb, leb, ◌==◌, Bool-cases, inl, inr,
}
use mach.Contracts.Escrow.{
  Session, Entry, get, put, ok, Escrow, Message, session_of, pending_of, set_session, pay, pay_some,
  Quote, split, settle, uint256_mod,
}
use mach.Contracts.Escrow.Debts.{
  owed, total, debts, set_session-debts, pay_some-debts, IsValid, session_of-Good, split-deposited,
}

elapsed_mono :
    (early late : ℕ) (s : Session) (q r : Quote)
    → early ≤ late
    → split early s ≡ ok q
    → split late s ≡ ok r
    → q.elapsed ≤ r.elapsed
unfolding split
elapsed_mono early late s q r h e f = ground arith

-- Of two splits of one session the earlier gives the provider no more and the renter no less, and
-- each divides the whole deposit.
pub split_earlier :
    (early late : ℕ) (s : Session) (q r : Quote)
    → early ≤ late
    → split early s ≡ ok q
    → split late s ≡ ok r
    → (q.provider_amount ≤ r.provider_amount)
      × (r.refund_amount ≤ q.refund_amount)
      × (q.provider_amount + q.refund_amount ≡ s.deposited)
      × (r.provider_amount + r.refund_amount ≡ s.deposited)
split_earlier early late s q r h e f =
    let (a, _, b) = split-deposited early s q e in
    let (c, _, d) = split-deposited late s r f in
    let shorter : q.elapsed ≤ r.elapsed = elapsed_mono early late s q r h e f in
    let less : s.price_per_second * q.elapsed ≤ s.price_per_second * r.elapsed =
      mul-le-mul_left s.price_per_second shorter in
    (omega (arith, b, d, less), omega (arith, a, c, b, d, less), a, c)

-- The split is computed while the deposit covers the time.
split_total :
    (timestamp : ℕ) (s : Session)
    → s.start_time ≤ timestamp
    → s.deposited ≡ s.price_per_second * s.duration
    → s.deposited < uint256_mod
    → (q : Quote) × (split timestamp s ≡ ok q)
unfolding split
split_total timestamp s h e small =
    let since = timestamp - s.start_time in
    let elapsed = if ltb s.duration since then s.duration else since in
    let short : elapsed ≤ s.duration = ground arith in
    let cost : s.price_per_second * elapsed ≤ s.price_per_second * s.duration =
      mul-le-mul_left s.price_per_second short in
    let begun : leb s.start_time timestamp ≡ true = ground arith in
    let small_cost : ltb (s.price_per_second * elapsed) uint256_mod ≡ true = ground arith in
    let covered : leb (s.price_per_second * elapsed) s.deposited ≡ true = ground arith in
    (
      record {
        elapsed = elapsed;
        provider_amount = s.price_per_second * elapsed;
        refund_amount = s.deposited - s.price_per_second * elapsed;
      },
      rw (begun, small_cost, covered) refl,
    )

total-get : (key : ℕ) (es : List (Entry ℕ)) → get 0 key es ≤ total (λ n. n) es
total-get key [] = omega arith
total-get key (e ∷ es) = ground (arith, total-get key es)

pay_some_total :
    (accepts : ℕ → Bool) (to amount : ℕ) (c : Escrow)
    → pending_of to c + amount < uint256_mod
    → (c' : Escrow) × (pay_some accepts to amount c ≡ ok c') × (c'.balance ≤ c.balance)
unfolding pay
pay_some_total accepts to amount c h = elim (Bool-cases (ltb 0 amount)) [
  | inr y ↦ (c, rw y refl, omega arith)
  | inl y ↦ elim (Bool-cases (accepts to && leb amount c.balance)) [
    | inl a ↦ (record c { balance = c.balance - amount }, rw (y, a) refl, omega arith)
    | inr a ↦
        let small : ltb (pending_of to c + amount) uint256_mod ≡ true = ground arith in
        (
          record c { pending_withdrawal = put to (pending_of to c + amount) c.pending_withdrawal },
          rw (y, a, small) refl,
          omega arith,
        )
  ]
]

settle_by :
    (accepts : ℕ → Bool) (m : Message) (id : ℕ) (c c₂ c₃ : Escrow) (q : Quote)
    → ((session_of id c).renter == 0) ≡ false
    → (session_of id c).settled ≡ false
    → split m.timestamp (session_of id c) ≡ ok q
    → pay_some accepts
        (session_of id c).provider
        q.provider_amount
        (set_session id (record (session_of id c) { settled = true }) c)
      ≡ ok c₂
    → pay_some accepts (session_of id c).renter q.refund_amount c₂ ≡ ok c₃
    → settle accepts m id c ≡ ok c₃
unfolding settle
settle_by accepts m id c c₂ c₃ q there live e p r = ground arith

-- Whoever refuses the payouts, a settlement of a live session goes through, in a contract whose
-- sessions and balance are as its calls leave them, provided the balance is below 2^256 tinybars
-- and the clock is not behind the session's start.
pub settle_total :
    (accepts : ℕ → Bool) (m : Message) (id : ℕ) (c : Escrow)
    → IsValid c
    → c.balance < uint256_mod
    → (session_of id c).renter ≢ 0
    → (session_of id c).settled ≡ false
    → (session_of id c).start_time ≤ m.timestamp
    → (c' : Escrow) × (settle accepts m id c ≡ ok c')
settle_total accepts m id c v small held live begun =
    let s = session_of id c in
    let done : Session = record s { settled = true } in
    let c₁ = set_session id done c in
    let moved = set_session-debts id done c in
    let had : owed s ≡ s.deposited = ground (arith, live) in
    let within : debts c₁ + s.deposited ≡ c.balance = omega (arith, moved, had, v.1) in
    let priced = (session_of-Good id c v).0 in
    let (q, e) = split_total m.timestamp s begun priced (omega (arith, within, small)) in
    let (adds_up, _, _) = split-deposited m.timestamp s q e in
    let first_pending = total-get s.provider c.pending_withdrawal in
    let (c₂, p, less) =
      pay_some_total accepts s.provider q.provider_amount c₁
        (omega (arith, within, adds_up, first_pending, small)) in
    let first = pay_some-debts accepts s.provider q.provider_amount c₁ c₂ p in
    let second_pending = total-get s.renter c₂.pending_withdrawal in
    let (c₃, r, _) =
      pay_some_total accepts s.renter q.refund_amount c₂
        (omega (arith, within, adds_up, first, second_pending, less, small)) in
    let there : (s.renter == 0) ≡ false = ground (arith, held) in
    (c₃, settle_by accepts m id c c₂ c₃ q there live e p r)
