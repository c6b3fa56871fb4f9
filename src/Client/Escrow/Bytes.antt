-- ===== src/Client/Escrow/Bytes.antt =====
-- The bytes of a session id.
use mach.Base.{
  ℕ, zero, suc, ◌*◌, ◌<◌, ◌≡◌, refl, Bool, true, false, not, ◌&&◌, List, [], ◌∷◌, arith,
  if◌then◌else◌, length, ◌==◌, ==_iff, all, All,
}
use mach.Js.Text.{Text}
use mach.Js.BigInt.{digit_value}
use mach.Client.Escrow.{ok, err, is_hex, hex_to_bytes, pairs, drop_0x, digit_or_zero}

digit_or_zero-lt : (c : ℕ) → digit_or_zero c < 16
unfolding digit_value
digit_or_zero-lt c = ground arith

pairs-bytes : (s : Text) → All (λ b. b < 256) (pairs s)
unfolding pairs
pairs-bytes [] = tt
pairs-bytes (c ∷ []) = tt
pairs-bytes (c ∷ d ∷ s) = (omega (arith, digit_or_zero-lt c, digit_or_zero-lt d), pairs-bytes s)

length-pairs : (s : Text) (n : ℕ) → length s ≡ 2 * n → length (pairs s) ≡ n
unfolding pairs
length-pairs [] n h = omega arith
length-pairs (c ∷ []) n h = absurd (omega arith)
length-pairs (c ∷ d ∷ s) zero h = absurd (omega arith)
length-pairs (c ∷ d ∷ s) (suc n) h = omega (arith, length-pairs s n (omega arith))

tested :
    (b : Bool) (e : Text) (found bytes : List ℕ)
    → (if not b then err e else ok found) ≡ ok bytes
    → (b ≡ true) × (bytes ≡ found)
tested true e found bytes h = (refl, cc)
tested false e found bytes h = absurd (cc h)

first_true : (a b : Bool) → (a && b) ≡ true → a ≡ true
first_true true b h = refl
first_true false b h = h

-- A session id that reads is thirty-two bytes.
pub hex_to_bytes_sound :
    (value : Text) (bytes : List ℕ)
    → hex_to_bytes value ≡ ok bytes
    → (length bytes ≡ 32) × All (λ b. b < 256) bytes
unfolding hex_to_bytes
hex_to_bytes_sound value bytes h =
    let hex = drop_0x value in
    let (test, same) = tested (length hex == 64 && all is_hex hex) _ (pairs hex) bytes h in
    let long : length hex ≡ 2 * 32 =
      (==_iff (length hex) 64).0 (first_true (length hex == 64) (all is_hex hex) test) in
    rw same (length-pairs hex 32 long, pairs-bytes hex)
