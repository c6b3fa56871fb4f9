-- ===== src/Client/Browser/Base64/Decode.antt =====
-- A decoder of base64, which reads back what was encoded.
use mach.Base.{
  ℕ, zero, suc, ◌+◌, ◌*◌, ◌/◌, ◌%◌, ◌<◌, ◌≡◌, refl, ap, ◌∙◌, Bool, true, false, not, ◌&&◌, List, [],
  ◌∷◌, arith, All, if◌then◌else◌, ◌==◌, ==_iff,
}
use mach.Js.Text.{Text, text}
use mach.Client.Browser.Base64.{base64_alphabet, letter, base64}

abbrev position : Text → ℕ → ℕ
position [] c = 0
position (d ∷ s) c = if d == c then 0 else suc (position s c)

unfoldable pub value : ℕ → ℕ
unfolding text
value c = position base64_alphabet c

unfoldable pub decode : Text → List ℕ
decode (w ∷ x ∷ y ∷ z ∷ s) =
    let a = value w * 4 + value x / 16 in
    let b = value x % 16 * 16 + value y / 4 in
    let c = value y % 4 * 64 + value z in
    let rest = decode s in
    if y == b'=' then a ∷ [] else if z == b'=' then a ∷ b ∷ [] else a ∷ b ∷ c ∷ rest
decode _ = []

-- Every letter has its own position, and none is the sign of the end.
abbrev is_read : ℕ → Bool
is_read i = value (letter i) == i && not (letter i == b'=')

checked : ℕ → Bool
checked zero = true
checked (suc i) = if is_read i then checked i else false

checked-is_read : (bound i : ℕ) → i < bound → checked bound ≡ true → is_read i ≡ true
unfolding checked
checked-is_read zero i below h = absurd (omega arith)
checked-is_read (suc bound) i below h = ground (arith, checked-is_read bound i)

letters : checked 64 ≡ true
unfolding checked value letter text
letters = refl

both : (a b : Bool) → (a && b) ≡ true → (a ≡ true) × (b ≡ true)
both true b h = (refl, h)
both false b h = absurd (cc h)

value-letter : (i : ℕ) → i < 64 → (value (letter i) ≡ i) × ((letter i == b'=') ≡ false)
value-letter i h =
    let (same, apart) =
      both (value (letter i) == i) (not (letter i == b'=')) (checked-is_read 64 i h letters) in
    ((==_iff (value (letter i)) i).0 same, ground (arith, apart))

module _ (p q : ℕ) (hp : p < 64) (hq : q < 64) where
  one_byte : decode (letter p ∷ letter q ∷ b'=' ∷ b'=' ∷ []) ≡ (p * 4 + q / 16) ∷ []
  unfolding decode
  one_byte = rw ((value-letter p hp).0, (value-letter q hq).0) refl

  two_bytes :
      (r : ℕ)
      → r < 64
      → decode (letter p ∷ letter q ∷ letter r ∷ b'=' ∷ [])
        ≡ (p * 4 + q / 16) ∷ (q % 16 * 16 + r / 4) ∷ []
  unfolding decode
  two_bytes r hr =
      let (same, apart) = value-letter r hr in
      rw ((value-letter p hp).0, (value-letter q hq).0, same, apart) refl

  three_bytes :
      (r t : ℕ) (s : Text)
      → r < 64
      → t < 64
      → decode (letter p ∷ letter q ∷ letter r ∷ letter t ∷ s)
        ≡ (p * 4 + q / 16) ∷ (q % 16 * 16 + r / 4) ∷ (r % 4 * 64 + t) ∷ decode s
  unfolding decode
  three_bytes r t s hr ht =
      let (same, apart) = value-letter r hr in
      let (last, not_end) = value-letter t ht in
      rw ((value-letter p hp).0, (value-letter q hq).0, same, apart, last, not_end) refl

nothing : decode [] ≡ []
unfolding decode
nothing = refl

-- What was encoded decodes to the same bytes.
pub decode-base64 : (bytes : List ℕ) → All (λ b. b < 256) bytes → decode (base64 bytes) ≡ bytes
unfolding base64
decode-base64 [] h = nothing
decode-base64 (a ∷ []) h =
    let back : a / 4 * 4 + a % 4 * 16 / 16 ≡ a = omega arith in
    one_byte (a / 4) (a % 4 * 16) (omega (arith, h.0)) (omega arith) ∙ ap (λ x. x ∷ []) back
decode-base64 (a ∷ b ∷ []) h =
    let back : a / 4 * 4 + (a % 4 * 16 + b / 16) / 16 ≡ a = omega (arith, h.1.0) in
    let back' : (a % 4 * 16 + b / 16) % 16 * 16 + b % 16 * 4 / 4 ≡ b = omega (arith, h.1.0) in
    two_bytes (a / 4) (a % 4 * 16 + b / 16) (omega (arith, h.0)) (omega (arith, h.1.0)) (b % 16 * 4)
      (omega arith)
    ∙ cc
decode-base64 (a ∷ b ∷ c ∷ bytes) (ha, (hb, (hc, h))) =
    let back : a / 4 * 4 + (a % 4 * 16 + b / 16) / 16 ≡ a = omega arith in
    let back' : (a % 4 * 16 + b / 16) % 16 * 16 + (b % 16 * 4 + c / 64) / 4 ≡ b = omega arith in
    let back'' : (b % 16 * 4 + c / 64) % 4 * 64 + c % 64 ≡ c = omega arith in
    let rest = decode-base64 bytes h in
    three_bytes (a / 4) (a % 4 * 16 + b / 16) (omega arith) (omega arith) (b % 16 * 4 + c / 64)
      (c % 64) (base64 bytes) (omega arith) (omega arith)
    ∙ cc
