-- ===== src/Web/Amounts.antt =====
-- web/lib/registry.ts: tinybars as HBAR, for display. The text is cut, never computed with.
pub mod Exact
use mach.Base.{
  ℕ, suc, ◌+◌, ◌-◌, Bool, true, false, not, ◌&&◌, ◌||◌, List, [], ◌∷◌, ◌++◌, if◌then◌else◌, length,
  take, drop, replicate, ltb, leb, ◌==◌,
}
use mach.Js.Text.{Text, text, ◌===◌, pad_start, drop_end_zeros}

-- `padded.slice(0, -8)` and `padded.slice(-8)` of a text of at least eight characters
abbrev pub cut : Text → ℕ
cut t = length t - 8

abbrev pub dotted : Text → Text → Text
dotted whole fraction = if fraction === [] then whole else whole ++ (b'.' ∷ fraction)

unfoldable pub hbar : Text → Text
hbar tinybars =
    let padded = pad_start 9 b'0' tinybars in
    dotted (take (cut padded) padded) (drop_end_zeros (drop (cut padded) padded))

abbrev is_digit : ℕ → Bool
is_digit c = leb b'0' c && leb c b'9'

-- `.replace(/^0+(?=\d)/, "")`
unfoldable pub drop_front_zeros : Text → Text
drop_front_zeros [] = []
drop_front_zeros (c ∷ []) = c ∷ []
drop_front_zeros (c ∷ d ∷ s) =
    let rest = drop_front_zeros (d ∷ s) in if c == b'0' && is_digit d then rest else c ∷ d ∷ s

-- `/[1-9]/.test(t)`
unfoldable pub has_nonzero : Text → Bool
has_nonzero [] = false
has_nonzero (c ∷ s) = (leb b'1' c && leb c b'9') || has_nonzero s

unfoldable pub hbar_short : ℕ → Text → Text
hbar_short decimals tinybars =
    let padded = pad_start 9 b'0' tinybars in
    let whole = drop_front_zeros (take (cut padded) padded) in
    let fraction = drop_end_zeros (take decimals (drop (cut padded) padded)) in
    if not (fraction === [])
    then whole ++ (b'.' ∷ fraction)
    else if not (whole === text "0")
    then whole
    else if has_nonzero tinybars
    then text "<0." ++ (replicate (decimals - 1) b'0' ++ text "1")
    else text "0"
