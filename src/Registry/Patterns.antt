-- ===== src/Registry/Patterns.antt =====
-- The regular expressions of registry/src/validate.ts, as functions on code units.
pub mod Grammar
use mach.Base.{
  ℕ, suc, zero, ◌-◌, Bool, true, false, ◌&&◌, ◌||◌, [], ◌∷◌, leb, ltb, ◌==◌, if◌then◌else◌, length,
  all, drop,
}
use mach.Js.Text.{Text, text, starts_with}

-- `\d`
unfoldable pub is_digit : ℕ → Bool
is_digit c = leb b'0' c && leb c b'9'

abbrev is_lower : ℕ → Bool
is_lower c = leb b'a' c && leb c b'z'

abbrev is_upper : ℕ → Bool
is_upper c = leb b'A' c && leb c b'Z'

abbrev is_hex : ℕ → Bool
is_hex c = is_digit c || (leb b'a' c && leb c b'f') || (leb b'A' c && leb c b'F')

abbrev is_word : ℕ → Bool
is_word c = is_upper c || is_lower c || is_digit c || c == b'_' || c == b'-'

abbrev pub length_in : ℕ → ℕ → Text → Bool
length_in lo hi t = leb lo (length t) && leb (length t) hi

-- `/^[A-Za-z0-9_-]{1,64}$/`
unfoldable pub is_node_id : Text → Bool
unfolding is_digit
is_node_id t = length_in 1 64 t && all is_word t

-- `/^\d{1,20}$/`
unfoldable pub is_whole_amount : Text → Bool
unfolding is_digit
is_whole_amount t = length_in 1 20 t && all is_digit t

-- Runs of one digit or more, joined by `dots` dots; `begun` after a digit of the present run.
unfoldable pub runs : ℕ → Bool → Text → Bool
runs dots begun [] = begun && dots == 0
runs dots begun (c ∷ s) =
    (is_digit c || (c == b'.' && begun && ltb 0 dots))
    && runs (if is_digit c then dots else dots - 1) (is_digit c) s

-- `/^\d+\.\d+\.\d+$/`
unfoldable pub is_hedera_id : Text → Bool
unfolding runs is_digit
is_hedera_id = runs 2 false

-- `/^hedera:[a-z]+$/`
unfoldable pub is_network : Text → Bool
unfolding text
is_network t = starts_with (text "hedera:") t && leb 8 (length t) && all is_lower (drop 7 t)

-- `/^0x[0-9a-fA-F]{40}$/`
unfoldable pub is_evm_address : Text → Bool
unfolding text is_digit
is_evm_address t = starts_with (text "0x") t && length t == 42 && all is_hex (drop 2 t)
