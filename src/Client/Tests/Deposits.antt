-- ===== src/Client/Tests/Deposits.antt =====
-- A deposit of the client, as the contract takes it.
use mach.Base.{
  ℕ, ◌^◌, ◌%◌, ◌≡◌, ◌∙◌, ap, refl, Option, none, some, if◌then◌else◌, ltb, Bool, true, List, [],
  ◌∷◌, ◌++◌, arith, length, replicate,
}
use mach.Base.Int.{ℤ, pos, pos_part, sub_ℕ}
use mach.Js.BigInt.{parse}
use mach.Js.BigInt.RoundTrip.{parse-print}
use mach.Js.Text.{Text, text}
use mach.Js.BigInt.{digit_value}
use mach.Contracts.Escrow
use mach.Contracts.Escrow.{Escrow, deployed}
use mach.Client.Escrow.{Execute, Sdk, ok, OpenArgs, hex_to_bytes, drop_0x, pairs, open_transaction}
use mach.Client.Escrow.Accepted.{arrives, ReadsLongs, open_accepted}

-- A session id of thirty-two bytes, the last one 7.
abbrev session_id : Text
session_id = text "0x0000000000000000000000000000000000000000000000000000000000000007"

abbrev bytes : List ℕ
bytes = replicate 31 0 ++ 7 ∷ []

read : hex_to_bytes session_id ≡ ok bytes
unfolding hex_to_bytes drop_0x pairs digit_value text
read = refl

-- Stand-ins for the reading of an address and for an address that takes payouts.
abbrev address_of : Text → ℕ
address_of t = length t

abbrev accepts : ℕ → Bool
accepts a = true

three : address_of (text "0x2") ≡ 3
unfolding text
three = refl

-- A stand-in for the SDK, whose integers wrap to 64 bits with a sign.
abbrev wrap : ℕ → ℤ
wrap n = if ltb n (2 ^ 63) then pos n else sub_ℕ n (2 ^ 64)

abbrev wrap_ℤ : Option ℤ → ℤ
wrap_ℤ none = pos 0
wrap_ℤ (some z) = wrap (pos_part z % 2 ^ 64)

abbrev sdk : Sdk
sdk = record { is_address = λ t. true; long_from_string = λ t. wrap_ℤ (parse t) }

sdk-ReadsLongs : ReadsLongs sdk
sdk-ReadsLongs n small =
    let same : n % 2 ^ 64 ≡ n = omega arith in
    ap wrap_ℤ (parse-print (pos n)) ∙ (ap wrap same ∙ ground arith)

open_accepted_example :
    let args : OpenArgs = record {
      session_id = session_id;
      provider_address = text "0x2";
      price_per_second = pos 10;
      seconds = pos 60;
    } in
    (x : Execute) × (open_transaction sdk args ≡ ok x)
    × ((c' : Escrow) × (arrives address_of accepts 1 1000 x deployed ≡ Escrow.ok c'))
open_accepted_example =
    open_accepted sdk address_of accepts 1 1000 10 60 session_id (text "0x2") bytes deployed
      sdk-ReadsLongs refl read refl (λ h. absurd (omega (arith, h, three))) (omega arith)
      (omega arith) (omega arith)
