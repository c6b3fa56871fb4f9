-- ===== src/Js/Text.antt =====
-- JavaScript strings as their UTF-16 code units, with the methods that the code calls.
pub mod Laws
use Prim.Native.Char.{code}
use Prim.Native.String
use Prim.Native.String.{String}
use mach.Base.{
  ℕ, zero, suc, ◌+◌, ◌-◌, Bool, true, false, ◌&&◌, ◌||◌, List, [], ◌∷◌, ◌++◌, leb, ◌==◌,
  if◌then◌else◌, length, take, drop, replicate,
}

abbrev pub Text : Type 0
Text = List ℕ

-- A literal. The source's literals lie in the basic plane, where a code point is a code unit.
unfoldable pub text : String → Text
text String.[] = []
text (String.◌∷◌ c s) = code c ∷ text s

-- `a === b` on strings
infix 50 ◌===◌
unfoldable pub ◌===◌ : Text → Text → Bool
[] === [] = true
(a ∷ s) === (b ∷ t) = (a == b) && (s === t)
_ === _ = false

unfoldable pub starts_with : Text → Text → Bool
starts_with [] t = true
starts_with (a ∷ s) [] = false
starts_with (a ∷ s) (b ∷ t) = (a == b) && starts_with s t

unfoldable pub includes : Text → Text → Bool
unfolding starts_with
includes s [] = starts_with s []
includes s (b ∷ t) = starts_with s (b ∷ t) || includes s t

-- White space and line terminators, which `trim` and `BigInt` take off.
unfoldable pub is_space : ℕ → Bool
is_space c =
    (leb 9 c && leb c 13)
    || c == 32
    || c == 0xa0
    || c == 0x1680
    || (leb 0x2000 c && leb c 0x200a)
    || c == 0x2028
    || c == 0x2029
    || c == 0x202f
    || c == 0x205f
    || c == 0x3000
    || c == 0xfeff

unfoldable pub trim_start : Text → Text
unfolding is_space
trim_start [] = []
trim_start (c ∷ s) = if is_space c then trim_start s else c ∷ s

abbrev push_unless_blank : ℕ → Text → Text
push_unless_blank c [] = if is_space c then [] else c ∷ []
push_unless_blank c (d ∷ s) = c ∷ d ∷ s

unfoldable pub trim_end : Text → Text
unfolding is_space
trim_end [] = []
trim_end (c ∷ s) = push_unless_blank c (trim_end s)

unfoldable pub trim : Text → Text
unfolding trim_start trim_end
trim s = trim_end (trim_start s)

-- `s.replace(/\/$/, "")`: one slash taken off the end
unfoldable pub drop_end_slash : Text → Text
drop_end_slash [] = []
drop_end_slash (c ∷ []) = if c == b'/' then [] else c ∷ []
drop_end_slash (c ∷ d ∷ s) = c ∷ drop_end_slash (d ∷ s)

-- `s.replace(/0+$/, "")`
abbrev pub push_unless_zeros : ℕ → Text → Text
push_unless_zeros c [] = if c == b'0' then [] else c ∷ []
push_unless_zeros c (d ∷ s) = c ∷ d ∷ s

unfoldable pub drop_end_zeros : Text → Text
drop_end_zeros [] = []
drop_end_zeros (c ∷ s) = push_unless_zeros c (drop_end_zeros s)

-- `s.padStart(n, c)`
unfoldable pub pad_start : ℕ → ℕ → Text → Text
pad_start n c s = replicate (n - length s) c ++ s

-- `s.slice(0, n)`
abbrev pub slice_to : ℕ → Text → Text
slice_to = take

-- ASCII letters in lower case, as a case-insensitive pattern of ASCII letters compares them
unfoldable pub fold_case : Text → Text
fold_case [] = []
fold_case (c ∷ s) = (if leb b'A' c && leb c b'Z' then c + 32 else c) ∷ fold_case s
