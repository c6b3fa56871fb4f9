-- ===== src/Contracts/Escrow.antt =====
-- contracts/contracts/SessionEscrow.sol. An address and a session id are numbers, and an amount is a
-- number below 2^256, past which the compiler's checks revert. A call that reverts leaves the state.
-- Whether an address takes a payout is told from outside, and a payout beyond the balance fails; an
-- address that calls back while it is paid is not modelled.
pub mod Debts
pub mod Solvency
pub mod Settling
pub mod Once
use mach.Base.{
  ℕ, ◌+◌, ◌-◌, ◌*◌, ◌^◌, Bool, true, false, not, ◌&&◌, List, [], ◌∷◌, if◌then◌else◌, ltb, leb, ◌==◌,
}

pub record Session : Type 0 where
  pub renter : ℕ
  pub provider : ℕ
  pub price_per_second : ℕ
  pub start_time : ℕ
  pub duration : ℕ
  pub deposited : ℕ
  pub settled : Bool

-- What a mapping holds under a key that was never written.
abbrev pub no_session : Session
no_session = record {
  renter = 0;
  provider = 0;
  price_per_second = 0;
  start_time = 0;
  duration = 0;
  deposited = 0;
  settled = false;
}

pub record Entry {ℓ} (A : Type ℓ) : Type ℓ where
  pub key : ℕ
  pub value : A

-- A `mapping`, by the keys that were written.
module _ {ℓ} {A : Type ℓ} where
  abbrev pub get : A → ℕ → List (Entry A) → A
  get default key [] = default
  get default key (e ∷ es) = if e.key == key then e.value else get default key es

  abbrev pub put : ℕ → A → List (Entry A) → List (Entry A)
  put key value [] = record { key = key; value = value } ∷ []
  put key value (e ∷ es) =
      let rest = put key value es in
      if e.key == key then record { key = key; value = value } ∷ es else e ∷ rest

pub data Revert : Type 0 where
  session_exists no_such_session already_settled zero_address zero_price zero_duration : Revert
  wrong_deposit : (expected sent : ℕ) → Revert
  nothing_to_withdraw withdraw_failed panic : Revert

pub data Result {ℓ} (A : Type ℓ) : Type ℓ where
  ok : A → Result A
  revert : Revert → Result A

infixl 5 ◌>>=◌ ◌>>◌
abbrev pub ◌>>=◌ {ℓ κ} : {A : Type ℓ} {B : Type κ} → Result A → (A → Result B) → Result B
ok a >>= f = f a
revert r >>= f = revert r

abbrev pub ◌>>◌ {ℓ} : {B : Type ℓ} → Result (Unit {0}) → Result B → Result B
m >> k = m >>= λ _. k

abbrev pub check : Bool → Revert → Result (Unit {0})
check true r = ok tt
check false r = revert r

abbrev pub uint256_mod : ℕ
uint256_mod = 2 ^ 256

-- Arithmetic as the compiler checks it.
abbrev pub mul : ℕ → ℕ → Result ℕ
mul a b = if ltb (a * b) uint256_mod then ok (a * b) else revert panic

abbrev pub add : ℕ → ℕ → Result ℕ
add a b = if ltb (a + b) uint256_mod then ok (a + b) else revert panic

abbrev pub sub : ℕ → ℕ → Result ℕ
sub a b = if leb b a then ok (a - b) else revert panic

-- `balance` is the account's own, which the network keeps.
pub record Escrow : Type 0 where
  pub sessions : List (Entry Session)
  pub pending_withdrawal : List (Entry ℕ)
  pub balance : ℕ

pub record Message : Type 0 where
  pub sender : ℕ
  pub value : ℕ
  pub timestamp : ℕ

abbrev pub session_of : ℕ → Escrow → Session
session_of id c = get no_session id c.sessions

abbrev pub pending_of : ℕ → Escrow → ℕ
pending_of to c = get 0 to c.pending_withdrawal

abbrev pub set_session : ℕ → Session → Escrow → Escrow
set_session id s c = record c { sessions = put id s c.sessions }

-- The value of a call that does not revert.
abbrev pub receive : ℕ → Escrow → Escrow
receive value c = record c { balance = c.balance + value }

unfoldable pub open_session :
    Message → (session_id provider price_per_second duration : ℕ) → Escrow → Result Escrow
open_session m id provider price duration c = do
  check ((session_of id c).renter == 0) session_exists
  check (not (provider == 0)) zero_address
  check (not (price == 0)) zero_price
  check (not (duration == 0)) zero_duration
  owed ← mul price duration
  check (m.value == owed) (wrong_deposit owed m.value)
  let s : Session = record {
    renter = m.sender;
    provider = provider;
    price_per_second = price;
    start_time = m.timestamp;
    duration = duration;
    deposited = m.value;
    settled = false;
  }
  ok (receive m.value (set_session id s c))

unfoldable pub top_up : Message → (session_id added_duration : ℕ) → Escrow → Result Escrow
top_up m id added c = do
  let s = session_of id c
  check (not (s.renter == 0)) no_such_session
  check (not s.settled) already_settled
  check (not (added == 0)) zero_duration
  owed ← mul s.price_per_second added
  check (m.value == owed) (wrong_deposit owed m.value)
  duration ← add s.duration added
  deposited ← add s.deposited m.value
  ok (receive m.value (set_session id (record s { duration = duration; deposited = deposited }) c))

-- `_pay`: a payout that is refused is kept for its address.
unfoldable pub pay : (ℕ → Bool) → (to tinybars : ℕ) → Escrow → Result Escrow
pay accepts to tinybars c =
    if accepts to && leb tinybars c.balance
    then ok (record c { balance = c.balance - tinybars })
    else add (pending_of to c) tinybars >>= λ amount.
        ok (record c { pending_withdrawal = put to amount c.pending_withdrawal })

pub record Quote : Type 0 where
  pub elapsed : ℕ
  pub provider_amount : ℕ
  pub refund_amount : ℕ

-- The split of a session's deposit at a time, as `settle` and `quoteSettlement` compute it.
unfoldable pub split : ℕ → Session → Result Quote
split timestamp s = do
  since ← sub timestamp s.start_time
  let elapsed = if ltb s.duration since then s.duration else since
  provider_amount ← mul s.price_per_second elapsed
  refund_amount ← sub s.deposited provider_amount
  ok (record {
    elapsed = elapsed;
    provider_amount = provider_amount;
    refund_amount = refund_amount;
  })

-- `if (amount > 0) _pay(to, amount)`
abbrev pay_some : (ℕ → Bool) → ℕ → ℕ → Escrow → Result Escrow
pay_some accepts to amount c =
    let paid = pay accepts to amount c in if ltb 0 amount then paid else ok c

unfoldable pub settle : (ℕ → Bool) → Message → (session_id : ℕ) → Escrow → Result Escrow
unfolding split pay
settle accepts m id c = do
  let s = session_of id c
  check (not (s.renter == 0)) no_such_session
  check (not s.settled) already_settled
  let c' = set_session id (record s { settled = true }) c
  q ← split m.timestamp s
  c'' ← pay_some accepts s.provider q.provider_amount c'
  pay_some accepts s.renter q.refund_amount c''

unfoldable pub quote_settlement : ℕ → (session_id : ℕ) → Escrow → Result Quote
unfolding split
quote_settlement timestamp id c = do
  let s = session_of id c
  check (not (s.renter == 0)) no_such_session
  split timestamp s

-- A withdrawal that is refused reverts, so the amount stays pending.
unfoldable pub withdraw : (ℕ → Bool) → Message → Escrow → Result Escrow
withdraw accepts m c = do
  let amount = pending_of m.sender c
  check (not (amount == 0)) nothing_to_withdraw
  check (accepts m.sender && leb amount c.balance) withdraw_failed
  ok (record c {
    pending_withdrawal = put m.sender 0 c.pending_withdrawal;
    balance = c.balance - amount;
  })

pub data Call : Type 0 where
  opening : (session_id provider price_per_second duration : ℕ) → Call
  topping_up : (session_id added_duration : ℕ) → Call
  settling : (session_id : ℕ) → Call
  withdrawing : Call

-- Only the two payable functions take a value: the compiler refuses one to the others.
unfoldable pub call : (ℕ → Bool) → Message → Call → Escrow → Result Escrow
unfolding open_session top_up settle withdraw
call accepts m (opening id provider price duration) c = open_session m id provider price duration c
call accepts m (topping_up id added) c = top_up m id added c
call accepts m (settling id) c = check (m.value == 0) panic >> settle accepts m id c
call accepts m withdrawing c = check (m.value == 0) panic >> withdraw accepts m c

abbrev or_keep : Escrow → Result Escrow → Escrow
or_keep c (ok c') = c'
or_keep c (revert r) = c

pub record Sent : Type 0 where
  pub accepts : ℕ → Bool
  pub message : Message
  pub call : Call

-- What happens on the network: calls with their messages, in their order.
unfoldable pub run : List Sent → Escrow → Escrow
unfolding call
run [] c = c
run (t ∷ sent) c = run sent (or_keep c (call t.accepts t.message t.call c))

abbrev pub deployed : Escrow
deployed = record { sessions = []; pending_withdrawal = []; balance = 0 }
