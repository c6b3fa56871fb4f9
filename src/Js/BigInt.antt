-- ===== src/Js/BigInt.antt =====
-- `BigInt(text)` and `String(bigint)`.
pub mod RoundTrip
use mach.Base.{
  ℕ, zero, suc, ◌+◌, ◌-◌, ◌*◌, ◌/◌, ◌%◌, Bool, true, false, ◌&&◌, ◌||◌, Option, none, some, List,
  [], ◌∷◌, ◌++◌, leb, ltb, ◌==◌, if◌then◌else◌,
}
use mach.Base.Int.{ℤ, pos, negsuc}
use mach.Js.Text.{Text, trim}

-- The value of a digit in a base up to sixteen.
unfoldable pub digit_value : ℕ → ℕ → Option ℕ
digit_value base c =
    let v =
      if leb b'0' c && leb c b'9'
      then c - b'0'
      else if leb b'a' c && leb c b'f'
      then c - 87
      else if leb b'A' c && leb c b'F'
      then c - 55
      else 16 in
    if ltb v base then some v else none

abbrev add_digit : ℕ → ℕ → Option ℕ → Option ℕ
add_digit base acc none = none
add_digit base acc (some d) = some (acc * base + d)

abbrev digits_step : (ℕ → Option ℕ) → Option ℕ → Option ℕ
digits_step k none = none
digits_step k (some acc) = k acc

unfoldable pub digits_from : ℕ → Text → ℕ → Option ℕ
digits_from base [] acc = some acc
digits_from base (c ∷ s) acc =
    digits_step (digits_from base s) (add_digit base acc (digit_value base c))

-- One digit or more.
unfoldable pub parse_digits : ℕ → Text → Option ℕ
unfolding digits_from
parse_digits base [] = none
parse_digits base (c ∷ s) = digits_from base (c ∷ s) 0

abbrev pub negate : ℕ → ℤ
negate zero = pos 0
negate (suc n) = negsuc n

abbrev signed : (ℕ → ℤ) → Option ℕ → Option ℤ
signed f none = none
signed f (some n) = some (f n)

-- The base that a prefix `0x`, `0o` or `0b` names.
abbrev prefix_base : ℕ → ℕ
prefix_base c =
    if c == b'x' || c == b'X'
    then 16
    else if c == b'o' || c == b'O'
    then 8
    else if c == b'b' || c == b'B'
    then 2
    else 0

parse_sign : ℕ → Text → Option ℤ
parse_sign c s =
    if c == b'-'
    then signed negate (parse_digits 10 s)
    else if c == b'+'
    then signed pos (parse_digits 10 s)
    else signed pos (parse_digits 10 (c ∷ s))

-- The text within the white space.
parse_trimmed : Text → Option ℤ
unfolding parse_digits parse_sign digit_value
parse_trimmed [] = some (pos 0)
parse_trimmed (c ∷ []) = parse_sign c []
parse_trimmed (c ∷ d ∷ s) =
    if c == b'0' && ltb 0 (prefix_base d)
    then signed pos (parse_digits (prefix_base d) s)
    else parse_sign c (d ∷ s)

-- `BigInt(text)`; `none` is the `SyntaxError`.
unfoldable pub parse : Text → Option ℤ
unfolding parse_trimmed trim
parse s = parse_trimmed (trim s)

-- The decimal digits of a number, by fuel above it.
unfoldable pub print_fuel : ℕ → ℕ → Text
print_fuel zero n = []
print_fuel (suc f) n =
    let rest = print_fuel f (n / 10) ++ (n % 10 + b'0') ∷ [] in
    if ltb n 10 then (n + b'0') ∷ [] else rest

unfoldable pub print_nat : ℕ → Text
unfolding print_fuel
print_nat n = print_fuel (suc n) n

-- `String(n)`, also in a template literal and `toString()`
unfoldable pub print : ℤ → Text
unfolding print_nat
print (pos n) = print_nat n
print (negsuc n) = b'-' ∷ print_nat (suc n)
