-- ===== src/Registry/Store/Token.antt =====
-- `tokensMatch` of registry/src/store.ts: the UTF-8 bytes of two strings, compared in constant time.
use mach.Base.{
  ℕ, ◌+◌, ◌-◌, ◌*◌, ◌/◌, ◌%◌, ◌<◌, ◌≡◌, ◌↔◌, refl, Bool, true, ◌&&◌, ◌||◌, List, [], ◌∷◌, ◌++◌,
  arith, leb, ltb, ◌==◌, if◌then◌else◌, length, All,
}
use mach.Js.Text.{Text, ◌===◌}
use mach.Js.Text.Laws.{eq_iff, eq_refl}

abbrev is_high : ℕ → Bool
is_high c = leb 0xd800 c && ltb c 0xdc00

abbrev is_low : ℕ → Bool
is_low c = leb 0xdc00 c && ltb c 0xe000

-- A code unit that is no part of a surrogate pair; a lone surrogate becomes U+FFFD.
abbrev encode_unit : ℕ → List ℕ
encode_unit c =
    if ltb c 0x80
    then c ∷ []
    else if ltb c 0x800
    then (0xc0 + c / 64) ∷ (0x80 + c % 64) ∷ []
    else if is_high c || is_low c
    then 0xef ∷ 0xbf ∷ 0xbd ∷ []
    else (0xe0 + c / 4096) ∷ (0x80 + c / 64 % 64) ∷ (0x80 + c % 64) ∷ []

abbrev encode_pair : ℕ → ℕ → List ℕ
encode_pair high low =
    let p = 0x10000 + (high - 0xd800) * 1024 + (low - 0xdc00) in
    (0xf0 + p / 262144) ∷ (0x80 + p / 4096 % 64) ∷ (0x80 + p / 64 % 64) ∷ (0x80 + p % 64) ∷ []

-- `Buffer.from(text, "utf8")`
utf8 : Text → List ℕ
utf8 [] = []
utf8 (c ∷ []) = encode_unit c
utf8 (c ∷ d ∷ s) =
    let pair = encode_pair c d ++ utf8 s in
    let single = encode_unit c ++ utf8 (d ∷ s) in if is_high c && is_low d then pair else single

unfoldable pub tokens_match : Text → Text → Bool
unfolding utf8
tokens_match a b =
    let left = utf8 a in let right = utf8 b in length left == length right && (left === right)

abbrev pub IsAscii : Text → Type 0
IsAscii t = All (λ c. c < 0x80) t

utf8_ascii : (t : Text) → IsAscii t → utf8 t ≡ t
unfolding utf8
utf8_ascii [] h = refl
utf8_ascii (c ∷ []) h = ground arith
utf8_ascii (c ∷ d ∷ s) h = ground (arith, utf8_ascii (d ∷ s) h.1)

-- On digests, which are ASCII, the comparison of UTF-8 buffers decides equality of the texts.
pub tokens_match_iff : (a b : Text) → IsAscii a → IsAscii b → (tokens_match a b ≡ true) ↔ (a ≡ b)
unfolding tokens_match
tokens_match_iff a b h k =
    rw (utf8_ascii a h, utf8_ascii b k)
      (λ e. (eq_iff a b).0 (ground arith), λ e. rw e (ground (arith, eq_refl b)))
