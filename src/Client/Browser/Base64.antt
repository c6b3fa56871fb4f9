-- ===== src/Client/Browser/Base64.antt =====
-- client/src/browser: `base64`, of which ssh-key.ts and wallet-signer.ts hold the same text. The bit
-- operations are written out: `a >> 2` is `a / 4`, and `|` joins bits that do not overlap.
pub mod Decode
use mach.Base.{ℕ, zero, suc, ◌+◌, ◌*◌, ◌/◌, ◌%◌, List, [], ◌∷◌, ◌++◌}
use mach.Js.Text.{Text, text}

abbrev pub base64_alphabet : Text
base64_alphabet = text "ABCDEFGHIJKLMNOPQRSTUVWXYZabcdefghijklmnopqrstuvwxyz0123456789+/"

-- `s[i]`, with zero out of range
abbrev char_at : Text → ℕ → ℕ
char_at [] i = 0
char_at (c ∷ s) zero = c
char_at (c ∷ s) (suc i) = char_at s i

unfoldable pub letter : ℕ → ℕ
unfolding text
letter i = char_at base64_alphabet i

unfoldable pub base64 : List ℕ → Text
base64 [] = []
base64 (a ∷ []) = letter (a / 4) ∷ letter (a % 4 * 16) ∷ b'=' ∷ b'=' ∷ []
base64 (a ∷ b ∷ []) =
    letter (a / 4) ∷ letter (a % 4 * 16 + b / 16) ∷ letter (b % 16 * 4) ∷ b'=' ∷ []
base64 (a ∷ b ∷ c ∷ bytes) =
    letter (a / 4)
    ∷ letter (a % 4 * 16 + b / 16)
    ∷ letter (b % 16 * 4 + c / 64)
    ∷ letter (c % 64)
    ∷ base64 bytes
