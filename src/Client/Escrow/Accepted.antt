-- ===== src/Client/Escrow/Accepted.antt =====
-- What the client sends, as the contract takes it.
use mach.Base.{
  ℕ, zero, suc, ◌+◌, ◌*◌, ◌^◌, true, ◌<◌, ◌≡◌, ◌≢◌, refl, Bool, false, Option, none, some, List, [],
  ◌∷◌, arith, if◌then◌else◌,
}
use mach.Base.Int.{pos, pos_part, pos-*ℤ, ◌*ℤ◌}
use mach.Js.Text.{Text, text, ◌===◌}
use mach.Js.BigInt.{parse, print}
use mach.Js.BigInt.RoundTrip.{parse-print}
use mach.Contracts.Escrow.{
  Escrow, Session, Message, Call, opening, topping_up, settling, call, session_of, set_session,
  receive, uint256_mod, open_session, top_up,
}
use mach.Contracts.Escrow
use mach.Client.Escrow.{
  Sdk, Param, bytes32, address, uint256, Execute, ok, hex_to_bytes, OpenArgs, TopUpArgs,
  open_transaction, top_up_transaction, write_gas,
}

-- A word of the EVM from its bytes.
abbrev pub word : ℕ → List ℕ → ℕ
word acc [] = acc
word acc (b ∷ bs) = word (acc * 256 + b) bs

-- The call that the parameters stand for; `address_of` reads an address.
abbrev pub call_of : (Text → ℕ) → Text → List Param → Option Call
call_of address_of function (bytes32 id ∷ address a ∷ uint256 price ∷ uint256 n ∷ []) =
    if function === text "openSession"
    then some (opening (word 0 id) (address_of a) (pos_part price) (pos_part n))
    else none
call_of address_of function (bytes32 id ∷ uint256 n ∷ []) =
    if function === text "topUp" then some (topping_up (word 0 id) (pos_part n)) else none
call_of address_of function (bytes32 id ∷ []) =
    if function === text "settle" then some (settling (word 0 id)) else none
call_of address_of function _ = none

abbrev value_of : Option Text → ℕ
value_of none = 0
value_of (some t) = elim (parse t) [ none ↦ 0 | some z ↦ pos_part z ]

-- The transaction on the contract.
abbrev pub arrives :
    (Text → ℕ) → (ℕ → Bool) → (sender timestamp : ℕ) → Execute → Escrow → Escrow.Result Escrow
arrives address_of accepts sender now x c =
    let m : Message = record {
      sender = sender;
      value = value_of x.payable_amount;
      timestamp = now;
    } in
    elim (call_of address_of x.function x.params) [
      | none ↦ Escrow.revert Escrow.panic
      | some k ↦ call accepts m k c
    ]

value_of-print : (n : ℕ) → value_of (some (print (pos n))) ≡ n
value_of-print n = ground (arith, parse-print (pos n))

open_accepts :
    (sender now id provider price n : ℕ) (c : Escrow)
    → (session_of id c).renter ≡ 0
    → provider ≢ 0
    → 0 < price
    → 0 < n
    → price * n < uint256_mod
    → (c' : Escrow) × (open_session
          (record { sender = sender; value = price * n; timestamp = now })
          id
          provider
          price
          n
          c
        ≡ Escrow.ok c')
unfolding open_session
open_accepts sender now id provider price n c free there p q small =
    let s : Session = record {
      renter = sender;
      provider = provider;
      price_per_second = price;
      start_time = now;
      duration = n;
      deposited = price * n;
      settled = false;
    } in
    (receive (price * n) (set_session id s c), ground (arith, free, there))

top_up_accepts :
    (sender now id n : ℕ) (c : Escrow)
    → (session_of id c).renter ≢ 0
    → (session_of id c).settled ≡ false
    → 0 < n
    → (session_of id c).duration + n < uint256_mod
    → (session_of id c).deposited + (session_of id c).price_per_second * n < uint256_mod
    → (c' : Escrow) × (top_up
          (record {
            sender = sender;
            value = (session_of id c).price_per_second * n;
            timestamp = now;
          })
          id
          n
          c
        ≡ Escrow.ok c')
unfolding top_up
top_up_accepts sender now id n c there live q long small =
    let s = session_of id c in
    let paid = s.price_per_second * n in
    (
      receive paid (
          set_session id (record s { duration = s.duration + n; deposited = s.deposited + paid })
            c),
      ground (arith, there, live),
    )

print_amount : (price n : ℕ) → value_of (some (print (pos price *ℤ pos n))) ≡ price * n
print_amount price n = rw (pos-*ℤ price n) (value_of-print (price * n))

-- `Long.fromString` reads back every integer that has 63 bits and a sign.
abbrev pub ReadsLongs : Sdk → Type 0
ReadsLongs sdk = (n : ℕ) → n < 2 ^ 63 → sdk.long_from_string (print (pos n)) ≡ pos n

least_factor : (price n : ℕ) → 0 < n → price * n < 2 ^ 63 → price < 2 ^ 63
least_factor price zero q small = absurd (omega arith)
least_factor price (suc n) q small = grind arith

-- A deposit as the client sends it, for an id that reads and was never opened, a nonzero provider
-- whose address the SDK reads and a positive price and time whose product is below 2^63, is taken
-- by the contract, provided Long.fromString reads back what fits its 64 bits.
pub open_accepted :
    (sdk : Sdk) (address_of : Text → ℕ) (accepts : ℕ → Bool) (sender now price n : ℕ)
    (session_id provider : Text) (bytes : List ℕ) (c : Escrow)
    → ReadsLongs sdk
    → sdk.is_address provider ≡ true
    → hex_to_bytes session_id ≡ ok bytes
    → (session_of (word 0 bytes) c).renter ≡ 0
    → address_of provider ≢ 0
    → 0 < price
    → 0 < n
    → price * n < 2 ^ 63
    → let args : OpenArgs = record {
      session_id = session_id;
      provider_address = provider;
      price_per_second = pos price;
      seconds = pos n;
    } in
      (x : Execute) × (open_transaction sdk args ≡ ok x)
      × ((c' : Escrow) × (arrives address_of accepts sender now x c ≡ Escrow.ok c'))
unfolding open_transaction call ◌===◌ text
open_accepted sdk address_of accepts sender now price n session_id provider bytes c reads known e
      free there p q small =
    let x : Execute = record {
      gas = write_gas;
      payable_amount = some (print (pos price *ℤ pos n));
      function = text "openSession";
      params = bytes32 bytes ∷ address provider ∷ uint256 (pos price) ∷ uint256 (pos n) ∷ [];
    } in
    let (c', done) =
      open_accepts sender now (word 0 bytes) (address_of provider) price n c free there p q
        (grind arith) in
    (
      x,
      rw (e, known, reads price (least_factor price n q small)) refl,
      (c', rw (print_amount price n) done),
    )

-- A top-up at the price of an open session, as the client sends it, is taken by the contract
-- while the sums fit.
pub top_up_accepted :
    (address_of : Text → ℕ) (accepts : ℕ → Bool) (sender now n : ℕ) (session_id : Text)
    (bytes : List ℕ) (c : Escrow)
    → hex_to_bytes session_id ≡ ok bytes
    → (session_of (word 0 bytes) c).renter ≢ 0
    → (session_of (word 0 bytes) c).settled ≡ false
    → 0 < n
    → (session_of (word 0 bytes) c).duration + n < uint256_mod
    → (session_of (word 0 bytes) c).deposited + (session_of (word 0 bytes) c).price_per_second * n
      < uint256_mod
    → let args : TopUpArgs = record {
      session_id = session_id;
      price_per_second = pos (session_of (word 0 bytes) c).price_per_second;
      seconds = pos n;
    } in
      (x : Execute) × (top_up_transaction args ≡ ok x)
      × ((c' : Escrow) × (arrives address_of accepts sender now x c ≡ Escrow.ok c'))
unfolding top_up_transaction call ◌===◌ text
top_up_accepted address_of accepts sender now n session_id bytes c e there live q long small =
    let price = (session_of (word 0 bytes) c).price_per_second in
    let x : Execute = record {
      gas = write_gas;
      payable_amount = some (print (pos price *ℤ pos n));
      function = text "topUp";
      params = bytes32 bytes ∷ uint256 (pos n) ∷ [];
    } in
    let (c', done) = top_up_accepts sender now (word 0 bytes) n c there live q long small in
    (x, rw e refl, (c', rw (print_amount price n) done))
