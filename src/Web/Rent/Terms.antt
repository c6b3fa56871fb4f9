-- ===== src/Web/Rent/Terms.antt =====
-- web/components/rent/session-flow.tsx and minutes-picker.tsx: the length of a session and its price,
-- from a node's offer and the minutes chosen. A price that is no integer throws, here `none`.
pub mod Cover
pub mod Paying
use mach.Base.{
  ℕ, suc, ◌+◌, ◌-◌, ◌*◌, ◌/◌, ◌%◌, Bool, true, false, ◌&&◌, Option, none, some, List, [], ◌∷◌, ◌++◌,
  keep, if◌then◌else◌, ltb, leb, ◌==◌,
}
use mach.Base.Int.{ℤ, pos, negsuc, ◌*ℤ◌}
use mach.Js.Text.{Text, text}
use mach.Js.BigInt.{parse, print_nat, negate}
use mach.Types.Node.{LeaseOffer}

-- `Math.ceil(a / b)` of a whole number by a if_positive one
unfoldable pub ceil_div : ℤ → ℕ → ℤ
ceil_div (pos a) b = pos ((a + (b - 1)) / b)
ceil_div (negsuc a) b = negate (suc a / b)

-- `Math.max(low, a)` with a natural number
unfoldable pub max_ℕ : ℕ → ℤ → ℕ
max_ℕ low (pos a) = if ltb low a then a else low
max_ℕ low (negsuc a) = low

unfoldable pub min_ℕ : ℕ → ℕ → ℕ
min_ℕ a b = if ltb a b then a else b

abbrev if_positive : ℤ → Option ℕ
if_positive (pos n) = if ltb 0 n then some n else none
if_positive (negsuc n) = none

abbrev price_of : Option Text → Option ℤ
price_of none = parse (text "0")
price_of (some price) = parse price

module _ (offer : LeaseOffer) where
  unfoldable pub min_seconds : ℤ
  unfolding ◌*ℤ◌
  min_seconds = offer.min_minutes *ℤ pos 60

  unfoldable pub price_per_second : Option ℤ
  price_per_second = price_of offer.price_tinybars_per_second

  -- `none` is the code's `null`, for a node that has published no chunk.
  unfoldable pub chunk_seconds : Option ℕ
  chunk_seconds = elim offer.chunk_seconds [ none ↦ none | some n ↦ if_positive n ]

  unfoldable pub picker_min_minutes : ℕ
  unfolding ceil_div max_ℕ min_seconds
  picker_min_minutes = max_ℕ 1 (ceil_div min_seconds 60)

  unfoldable pub picker_max_minutes : ℕ
  unfolding max_ℕ picker_min_minutes
  picker_max_minutes = max_ℕ picker_min_minutes offer.max_minutes

  unfoldable pub has_choice : Bool
  unfolding picker_min_minutes picker_max_minutes
  has_choice = ltb picker_min_minutes picker_max_minutes

  -- The minutes that are chosen at first.
  unfoldable pub initial_minutes : ℕ
  unfolding max_ℕ min_ℕ picker_min_minutes picker_max_minutes
  initial_minutes = min_ℕ (max_ℕ 30 (pos picker_min_minutes)) picker_max_minutes

  unfoldable pub first_payment_seconds : ℕ → ℕ
  unfolding min_ℕ chunk_seconds
  first_payment_seconds minutes = elim chunk_seconds [
    | none ↦ minutes * 60
    | some chunk ↦ min_ℕ (minutes * 60) chunk
  ]

  unfoldable pub payments : ℕ → Option ℤ
  unfolding ceil_div chunk_seconds
  payments minutes = elim chunk_seconds [
    | none ↦ none
    | some chunk ↦ some (ceil_div (pos (minutes * 60)) chunk)
  ]

-- The price of so many seconds: of the whole session, or of the first payment.
abbrev pub cost : ℤ → ℕ → ℤ
cost price seconds = price *ℤ pos seconds

-- `maxTinybarsPerPayment`
unfoldable pub payment_cap : LeaseOffer → ℤ → ℕ → ℤ
unfolding first_payment_seconds ◌*ℤ◌
payment_cap offer price minutes = cost price (first_payment_seconds offer minutes) *ℤ pos 2

-- The buttons of `MinutesPicker`.
unfoldable pub presets : ℕ → ℕ → List ℕ
presets min max = keep (λ value. leb min value && leb value max) (15 ∷ 30 ∷ 60 ∷ 120 ∷ [])

unfoldable pub format_minutes : ℕ → Text
unfolding print_nat
format_minutes seconds =
    if seconds == 0
    then text "0 minutes"
    else if ltb 0 (seconds % 60)
    then print_nat seconds ++ text " seconds"
    else if seconds / 60 == 1
    then text "1 minute"
    else print_nat (seconds / 60) ++ text " minutes"
