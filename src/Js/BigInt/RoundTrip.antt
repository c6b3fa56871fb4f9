-- ===== src/Js/BigInt/RoundTrip.antt =====
-- Reading back a printed number.
use mach.Base.{
  Option, ℕ, zero, suc, ◌+◌, ◌/◌, ◌%◌, ◌≤◌, ◌<◌, ◌≡◌, ◌≢◌, refl, some, none, [], ◌∷◌, ◌++◌, arith,
  All, All-append, inl, inr, Bool-cases, ltb, ltb→lt,
}
use mach.Base.Int.{ℤ, pos, negsuc}
use mach.Js.Text.{Text, is_space}
use mach.Js.Text.Laws.{NotSpace, trim_self}
use mach.Js.BigInt.{
  negate, prefix_base, parse, parse_trimmed, parse_sign, parse_digits, print, print_nat, print_fuel,
  digit_value, digits_from, digits_step, add_digit,
}

abbrev pub IsDigit : ℕ → Type 0
IsDigit c = (b'0' ≤ c) × (c ≤ b'9')

digit_value-print : (d : ℕ) → d < 10 → digit_value 10 (d + b'0') ≡ some d
unfolding digit_value
digit_value-print d h = ground arith

step_assoc :
    (k k' g : ℕ → Option ℕ)
    → ((a : ℕ) → k a ≡ digits_step g (k' a))
    → (o : Option ℕ) → digits_step k o ≡ digits_step g (digits_step k' o)
step_assoc k k' g h none = refl
step_assoc k k' g h (some a) = h a

digits_from-append :
    (base : ℕ) (s : Text) (c acc : ℕ)
    → digits_from base (s ++ c ∷ []) acc
      ≡ digits_step (λ a. add_digit base a (digit_value base c)) (digits_from base s acc)
unfolding digits_from
digits_from-append base [] c acc = ground arith
digits_from-append base (b ∷ s) c acc =
    step_assoc (digits_from base (s ++ c ∷ [])) (digits_from base s)
      (λ a. add_digit base a (digit_value base c)) (λ a. digits_from-append base s c a)
      (add_digit base acc (digit_value base b))

digits_from-digit : (n : ℕ) → n < 10 → digits_from 10 ((n + b'0') ∷ []) 0 ≡ some n
unfolding digits_from
digits_from-digit n h = rw (digit_value-print n h) (ground arith)

print_fuel-read : (f n : ℕ) → n < f → digits_from 10 (print_fuel f n) 0 ≡ some n
unfolding print_fuel
print_fuel-read zero n h = absurd (omega arith)
print_fuel-read (suc f) n h = elim (Bool-cases (ltb n 10)) [
  | inl e ↦ rw e (digits_from-digit n (ground arith))
  | inr e ↦
      rw
        (
          e,
          digits_from-append 10 (print_fuel f (n / 10)) (n % 10 + b'0') 0,
          digit_value-print (n % 10) (omega arith),
          print_fuel-read f (n / 10) (ground arith),
        )
        (ground arith)
]

-- A printed number is decimal digits, one or more.
pub print_fuel-digits : (f n : ℕ) → All IsDigit (print_fuel f n)
unfolding print_fuel
print_fuel-digits zero n = tt
print_fuel-digits (suc f) n = elim (Bool-cases (ltb n 10)) [
  | inl e ↦ rw e (omega (arith, ltb→lt n 10 e))
  | inr e ↦ rw e (
      All-append IsDigit (print_fuel f (n / 10)) _ (print_fuel-digits f (n / 10))
        ((omega arith, omega arith), tt))
]

pub print_nat-digits : (n : ℕ) → All IsDigit (print_nat n)
unfolding print_nat
print_nat-digits n = print_fuel-digits (suc n) n

append-ne-nil : (s : Text) (c : ℕ) → s ++ c ∷ [] ≢ []
append-ne-nil [] c h = cc
append-ne-nil (b ∷ s) c h = cc

pub print_nat-ne-nil : (n : ℕ) → print_nat n ≢ []
unfolding print_nat print_fuel
print_nat-ne-nil n h = ground (arith, append-ne-nil (print_fuel n (n / 10)) (n % 10 + b'0'))

pub print_nat-read : (n : ℕ) → digits_from 10 (print_nat n) 0 ≡ some n
unfolding print_nat
print_nat-read n = print_fuel-read (suc n) n (omega arith)

IsDigit-NotSpace : (c : ℕ) → IsDigit c → NotSpace c
unfolding is_space
IsDigit-NotSpace c h = ground arith

All-NotSpace : (s : Text) → All IsDigit s → All NotSpace s
All-NotSpace [] h = tt
All-NotSpace (c ∷ s) h = (IsDigit-NotSpace c h.0, All-NotSpace s h.1)

parse_sign-digits :
    (c : ℕ) (s : Text) (n : ℕ)
    → IsDigit c
    → digits_from 10 (c ∷ s) 0 ≡ some n
    → parse_sign c s ≡ some (pos n)
unfolding parse_sign parse_digits
parse_sign-digits c s n h e = ground arith

prefix_base-digit : (c : ℕ) → IsDigit c → prefix_base c ≡ 0
prefix_base-digit c h = ground arith

parse_trimmed-digits :
    (s : Text) (n : ℕ)
    → s ≢ []
    → All IsDigit s
    → digits_from 10 s 0 ≡ some n
    → parse_trimmed s ≡ some (pos n)
unfolding parse_trimmed
parse_trimmed-digits [] n ne h e = absurd (ne refl)
parse_trimmed-digits (c ∷ []) n ne h e = parse_sign-digits c [] n h.0 e
parse_trimmed-digits (c ∷ d ∷ s) n ne h e =
    ground (arith, prefix_base-digit d h.1.0, parse_sign-digits c (d ∷ s) n h.0 e)

-- Decimal digits are read as the number that they spell.
pub parse-digits :
    (s : Text) (n : ℕ)
    → s ≢ []
    → All IsDigit s
    → digits_from 10 s 0 ≡ some n
    → parse s ≡ some (pos n)
unfolding parse
parse-digits s n ne h e = rw (trim_self s (All-NotSpace s h)) (parse_trimmed-digits s n ne h e)

parse-print_nat : (n : ℕ) → parse (print_nat n) ≡ some (pos n)
parse-print_nat n =
    parse-digits (print_nat n) n (print_nat-ne-nil n) (print_nat-digits n) (print_nat-read n)

parse_trimmed-minus :
    (s : Text) (n : ℕ)
    → s ≢ []
    → digits_from 10 s 0 ≡ some n
    → parse_trimmed (b'-' ∷ s) ≡ some (negate n)
unfolding parse_trimmed parse_sign parse_digits
parse_trimmed-minus [] n ne e = absurd (ne refl)
parse_trimmed-minus (d ∷ s) n ne e = ground arith

minus-NotSpace : NotSpace b'-'
unfolding is_space
minus-NotSpace = refl

-- `BigInt(String(z))` is `z`, for every integer.
pub parse-print : (z : ℤ) → parse (print z) ≡ some z
unfolding print
parse-print (pos n) = parse-print_nat n
parse-print (negsuc n) =
    unfold parse in
    rw
      (trim_self (b'-' ∷ print_nat (suc n))
        (minus-NotSpace, All-NotSpace (print_nat (suc n)) (print_nat-digits (suc n))))
      (parse_trimmed-minus (print_nat (suc n)) (suc n) (print_nat-ne-nil (suc n))
        (print_nat-read (suc n)))
