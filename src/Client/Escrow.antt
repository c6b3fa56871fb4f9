-- ===== src/Client/Escrow.antt =====
-- client/src/escrow.ts: the calls of the session escrow. The Hedera SDK is a parameter: `submit` is the
-- fate of a transaction that is executed with the client's operator, and `query` that of a query.
pub mod Bytes
pub mod Accepted
use mach.Base.{
  ℕ, zero, suc, ◌+◌, ◌-◌, ◌*◌, Bool, true, false, not, ◌&&◌, ◌||◌, Option, none, some, List, [],
  ◌∷◌, ◌++◌, if◌then◌else◌, length, leb, ◌==◌, all, drop,
}
use mach.Base.Int.{ℤ, pos, ◌*ℤ◌}
use mach.Js.Text.{Text, text, ◌===◌, starts_with, includes}
use mach.Js.BigInt.{print, digit_value}

abbrev pub write_gas : ℕ
write_gas = 400000

abbrev pub query_gas : ℕ
query_gas = 120000

-- A parameter of a contract's function, as it is added.
pub data Param : Type 0 where
  bytes32 : List ℕ → Param
  address : Text → Param
  uint256 : ℤ → Param

-- A `ContractExecuteTransaction`, with its payable amount in tinybars.
pub record Execute : Type 0 where
  pub gas : ℕ
  pub payable_amount : Option Text
  pub function : Text
  pub params : List Param

-- A failure to execute with its message, or a receipt with its status and the transaction's id.
pub data Fate : Type 0 where
  threw : Text → Fate
  receipt : (status transaction : Text) → Fate

pub data Result {ℓ} (A : Type ℓ) : Type ℓ where
  ok : A → Result A
  err : Text → Result A

infixl 5 ◌>>=◌
abbrev pub ◌>>=◌ {ℓ κ} : {A : Type ℓ} {B : Type κ} → Result A → (A → Result B) → Result B
ok a >>= f = f a
err e >>= f = err e

-- `.replace(/^0x/i, "")`
unfoldable pub drop_0x : Text → Text
drop_0x [] = []
drop_0x (c ∷ []) = c ∷ []
drop_0x (c ∷ d ∷ s) = if c == b'0' && (d == b'x' || d == b'X') then s else c ∷ d ∷ s

abbrev is_hex : ℕ → Bool
is_hex c = elim (digit_value 16 c) [ none ↦ false | some v ↦ true ]

abbrev digit_or_zero : ℕ → ℕ
digit_or_zero c = elim (digit_value 16 c) [ none ↦ 0 | some v ↦ v ]

-- `hex.match(/.{2}/g)!.map((byte) => parseInt(byte, 16))`
unfoldable pub pairs : Text → List ℕ
pairs [] = []
pairs (c ∷ []) = []
pairs (c ∷ d ∷ s) = (digit_or_zero c * 16 + digit_or_zero d) ∷ pairs s

unfoldable pub hex_to_bytes : Text → Result (List ℕ)
unfolding drop_0x pairs digit_value
hex_to_bytes value =
    let hex = drop_0x value in
    if not (length hex == 64 && all is_hex hex)
    then err (text "session id must be 32 hex bytes, got \"" ++ (value ++ text "\""))
    else ok (pairs hex)

pub record OpenArgs : Type 0 where
  pub session_id : Text
  pub provider_address : Text
  pub price_per_second : ℤ
  pub seconds : ℤ

pub record TopUpArgs : Type 0 where
  pub session_id : Text
  pub price_per_second : ℤ
  pub seconds : ℤ

-- What is called of the SDK and of its `Long`: whether `addAddress` reads an address, which throws
-- otherwise, and `Long.fromString`, whose integers have 64 bits.
pub record Sdk : Type 0 where
  pub is_address : Text → Bool
  pub long_from_string : Text → ℤ

unfoldable pub open_transaction : Sdk → OpenArgs → Result Execute
unfolding hex_to_bytes print ◌*ℤ◌
open_transaction sdk a =
    let deposit = a.price_per_second *ℤ a.seconds in
    hex_to_bytes a.session_id >>= λ id.
    if not (sdk.is_address a.provider_address)
    then err (text "invalid address")
    else ok (record {
      gas = write_gas;
      payable_amount = some (print deposit);
      function = text "openSession";
      params =
          bytes32 id
          ∷ address a.provider_address
          ∷ uint256 (sdk.long_from_string (print a.price_per_second))
          ∷ uint256 a.seconds
          ∷ [];
    })

unfoldable pub top_up_transaction : TopUpArgs → Result Execute
unfolding hex_to_bytes print ◌*ℤ◌
top_up_transaction a =
    let deposit = a.price_per_second *ℤ a.seconds in
    hex_to_bytes a.session_id >>= λ id. ok (record {
      gas = write_gas;
      payable_amount = some (print deposit);
      function = text "topUp";
      params = bytes32 id ∷ uint256 a.seconds ∷ [];
    })

-- A call without a value, or a query.
abbrev on_session : ℕ → Text → Text → Result Execute
on_session gas function session_id = hex_to_bytes session_id >>= λ id.
    ok (record { gas = gas; payable_amount = none; function = function; params = bytes32 id ∷ [] })

unfoldable pub settle_transaction : Text → Result Execute
unfolding hex_to_bytes
settle_transaction session_id = on_session write_gas (text "settle") session_id

-- The execution of a transaction, and `confirm` on its receipt.
unfoldable pub confirm : Text → Fate → Result Text
confirm what (threw message) = err message
confirm what (receipt status transaction) =
    if not (status === text "SUCCESS")
    then err (what ++ (text " failed on-chain: " ++ status))
    else ok transaction

unfoldable pub is_already_settled : Text → Bool
unfolding includes
is_already_settled message = includes (text "CONTRACT_REVERT_EXECUTED") message

pub record Settled : Type 0 where
  pub transaction : Text
  pub already_settled : Bool

pub record OnChainSession : Type 0 where
  pub renter : Text
  pub provider : Text
  pub price_per_second : ℤ
  pub start_time : ℤ
  pub duration : ℤ
  pub deposited : ℤ
  pub settled : Bool

pub record SettlementQuote : Type 0 where
  pub elapsed : ℤ
  pub provider_amount : ℤ
  pub refund_amount : ℤ

-- What settling makes of its outcome.
abbrev settled_of : Result Text → Result Settled
settled_of (ok transaction) = ok (record { transaction = transaction; already_settled = false })
settled_of (err message) =
    if is_already_settled message
    then ok (record { transaction = []; already_settled = true })
    else err message

module _ (sdk : Sdk) (submit : Execute → Fate) where
  unfoldable pub open_session : OpenArgs → Result Text
  unfolding open_transaction confirm
  open_session a = open_transaction sdk a >>= λ x. confirm (text "openSession") (submit x)

  unfoldable pub top_up : TopUpArgs → Result Text
  unfolding top_up_transaction confirm
  top_up a = top_up_transaction a >>= λ x. confirm (text "topUp") (submit x)

  unfoldable pub settle : Text → Result Settled
  unfolding settle_transaction confirm is_already_settled
  settle session_id =
      settled_of (settle_transaction session_id >>= λ x. confirm (text "settle") (submit x))

-- The queries: what the SDK reads of the words that the contract returns.
unfoldable pub read_session : (Execute → Result OnChainSession) → Text → Result OnChainSession
unfolding hex_to_bytes
read_session query session_id = on_session query_gas (text "getSession") session_id >>= query

unfoldable pub quote_settlement : (Execute → Result SettlementQuote) → Text → Result SettlementQuote
unfolding hex_to_bytes
quote_settlement query session_id =
    on_session query_gas (text "quoteSettlement") session_id >>= query
