-- ===== src/Contracts/Escrow/Debts.antt =====
-- What the contract owes: the deposits of unsettled sessions and the payouts that were refused.
use mach.Base.{
  ℕ, ◌+◌, ◌*◌, ◌≤◌, ◌≡◌, ◌≢◌, ap, sym, refl, Bool, true, false, List, [], ◌∷◌, arith, if◌then◌else◌,
  ltb, ◌==◌, if_both, Bool-cases, inl, inr, All,
}
use mach.Contracts.Escrow.{
  Session, no_session, Entry, get, put, Result, ok, revert, ◌>>=◌, Escrow, Message, session_of,
  pending_of, set_session, receive, open_session, top_up, pay, pay_some, Quote, split,
}

abbrev pub owed : Session → ℕ
owed s = if s.settled then 0 else s.deposited

abbrev pub total {ℓ} : {A : Type ℓ} → (A → ℕ) → List (Entry A) → ℕ
total f [] = 0
total f (e ∷ es) = f e.value + total f es

pub total-put :
    {A : Type 0} (f : A → ℕ) (default : A) (key : ℕ) (value : A) (es : List (Entry A))
    → f default ≡ 0
    → total f (put key value es) + f (get default key es) ≡ total f es + f value
total-put f default key value [] h = omega (arith, h)
total-put f default key value (e ∷ es) h = elim (Bool-cases (e.key == key)) [
  | inl same ↦ rw (same, put) (omega arith)
  | inr differs ↦ let ih = total-put f default key value es h in rw (differs, put) (omega arith)
]

-- The sum of what the sessions and the refused payouts are owed.
abbrev pub debts : Escrow → ℕ
debts c = total owed c.sessions + total (λ n. n) c.pending_withdrawal

abbrev pub IsSolvent : Escrow → Type 0
IsSolvent c = c.balance ≡ debts c

pub set_session-debts :
    (id : ℕ) (s : Session) (c : Escrow)
    → debts (set_session id s c) + owed (session_of id c) ≡ debts c + owed s
set_session-debts id s c = omega (arith, total-put owed no_session id s c.sessions refl)

pay-debts :
    (accepts : ℕ → Bool) (to tinybars : ℕ) (c c' : Escrow)
    → pay accepts to tinybars c ≡ ok c'
    → c'.balance + debts c + tinybars ≡ debts c' + c.balance
unfolding pay
pay-debts accepts to tinybars c c' h =
    ground (arith, total-put (λ n. n) 0 to (pending_of to c + tinybars) c.pending_withdrawal refl)

pub pay_some-debts :
    (accepts : ℕ → Bool) (to amount : ℕ) (c c' : Escrow)
    → pay_some accepts to amount c ≡ ok c'
    → c'.balance + debts c + amount ≡ debts c' + c.balance
pay_some-debts accepts to amount c c' h = elim (Bool-cases (ltb 0 amount)) [
  | inl y ↦ pay-debts accepts to amount c c' (rw y at h)
  | inr y ↦
      let same : c ≡ c' = cc (rw y at h) in
      let zero_ : amount ≡ 0 = ground arith in rw (← same) (omega arith)
]

-- A session's deposit is the price of its time, and there is none without a renter.
abbrev pub Good : Session → Type 0
Good s =
    (s.deposited ≡ s.price_per_second * s.duration) × ((s.renter == 0) ≡ true → s.deposited ≡ 0)

module _ {A : Type 0} (P : A → Type 0) where
  abbrev pub Each : List (Entry A) → Type 0
  Each es = All (λ e. P e.value) es

  pub get-Each :
      (default : A) (key : ℕ) (es : List (Entry A)) → P default → Each es → P (get default key es)
  get-Each default key [] d h = d
  get-Each default key (e ∷ es) d h = if_both P (e.key == key) h.0 (get-Each default key es d h.1)

  pub put-Each :
      (key : ℕ) (value : A) (es : List (Entry A)) → P value → Each es → Each (put key value es)
  put-Each key value [] v h = (v, tt)
  put-Each key value (e ∷ es) v h =
      if_both Each (e.key == key) (v, h.1) (h.0, put-Each key value es v h.1)

abbrev pub IsValid : Escrow → Type 0
IsValid c = Each Good c.sessions × IsSolvent c

pub session_of-Good : (id : ℕ) (c : Escrow) → IsValid c → Good (session_of id c)
session_of-Good id c v = get-Each Good no_session id c.sessions (refl, λ z. refl) v.0

pub open_session-IsValid :
    (m : Message) (id provider price duration : ℕ) (c c' : Escrow)
    → m.sender ≢ 0
    → IsValid c
    → open_session m id provider price duration c ≡ ok c'
    → IsValid c'
unfolding open_session
open_session-IsValid m id provider price duration c c' sender v h =
    let old = session_of-Good id c v in
    let s : Session = record {
      renter = m.sender;
      provider = provider;
      price_per_second = price;
      start_time = m.timestamp;
      duration = duration;
      deposited = m.value;
      settled = false;
    } in
    let moved = set_session-debts id s c in
    let exact : m.value ≡ price * duration = ground (arith, h) in
    let free : ((session_of id c).renter == 0) ≡ true = ground (arith, h) in
    let none_ : (session_of id c).deposited ≡ 0 = old.1 free in
    let nothing : owed (session_of id c) ≡ 0 = ground (arith, none_) in
    let same : c' ≡ receive m.value (set_session id s c) = ground (arith, h) in
    rw same (
      put-Each Good id s c.sessions (exact, λ z. ground (arith, sender, z)) v.0,
      omega (arith, moved, v.1, nothing),
    )

pub top_up-IsValid :
    (m : Message) (id added : ℕ) (c c' : Escrow)
    → IsValid c
    → top_up m id added c ≡ ok c'
    → IsValid c'
unfolding top_up
top_up-IsValid m id added c c' v h =
    let old = session_of id c in
    let good = session_of-Good id c v in
    let s : Session = record old {
      duration = old.duration + added;
      deposited = old.deposited + m.value;
    } in
    let moved = set_session-debts id s c in
    let exact : m.value ≡ old.price_per_second * added = ground (arith, h) in
    let held : (old.renter == 0) ≡ false = ground (arith, h) in
    let live : old.settled ≡ false = ground (arith, h) in
    let more : owed s ≡ owed old + m.value = ground (arith, live) in
    let priced : s.deposited ≡ s.price_per_second * s.duration = grind (arith, good) in
    let same : c' ≡ receive m.value (set_session id s c) = ground (arith, h) in
    rw same (
      put-Each Good id s c.sessions (priced, λ z. ground (arith, held, z)) v.0,
      omega (arith, moved, v.1, more),
    )

pay-sessions :
    (accepts : ℕ → Bool) (to tinybars : ℕ) (c c' : Escrow)
    → pay accepts to tinybars c ≡ ok c'
    → c'.sessions ≡ c.sessions
unfolding pay
pay-sessions accepts to tinybars c c' h = ground arith

pub pay_some-sessions :
    (accepts : ℕ → Bool) (to amount : ℕ) (c c' : Escrow)
    → pay_some accepts to amount c ≡ ok c'
    → c'.sessions ≡ c.sessions
pay_some-sessions accepts to amount c c' h = elim (Bool-cases (ltb 0 amount)) [
  | inl y ↦ pay-sessions accepts to amount c c' (rw y at h)
  | inr y ↦ let same : c ≡ c' = cc (rw y at h) in ap (λ d. d.sessions) (sym same)
]

pub split-deposited :
    (timestamp : ℕ) (s : Session) (q : Quote)
    → split timestamp s ≡ ok q
    → (q.provider_amount + q.refund_amount ≡ s.deposited)
      × (q.elapsed ≤ s.duration)
      × (q.provider_amount ≡ s.price_per_second * q.elapsed)
unfolding split
split-deposited timestamp s q h = ground (arith, h)

pub bind_ok :
    {S T : Type 0} {t : T} (first : Result S) (next : S → Result T)
    → (first >>= next) ≡ ok t
    → (s : S) × (next s ≡ ok t) × (first ≡ ok s)
bind_ok (ok s) next h = (s, h, refl)
bind_ok (revert r) next h = absurd (cc h)
