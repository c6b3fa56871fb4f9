-- ===== src/Types/X402.antt =====
-- packages/types/src/x402.ts: constants of the protocol, and amounts for display.
use mach.Base.{ℕ, suc, ◌/◌, ◌%◌, ◌++◌, Option, none, some, ◌∷◌, if◌then◌else◌, length, ltb}
use mach.Base.Int.{ℤ, pos, negsuc}
use mach.Js.Text.{Text, text, ◌===◌, pad_start, drop_end_zeros}
use mach.Js.BigInt.{parse, print, negate}

abbrev pub hedera_testnet : Text
hedera_testnet = text "hedera:testnet"

abbrev pub hedera_mainnet : Text
hedera_mainnet = text "hedera:mainnet"

-- The x402 asset id of native HBAR.
abbrev pub hbar_asset_id : Text
hbar_asset_id = text "0.0.0"

abbrev pub tinybars_per_hbar : ℕ
tinybars_per_hbar = 100000000

-- Division and remainder of a `bigint` by a positive number: towards zero.
abbrev pub quotient : ℤ → ℕ → ℤ
quotient (pos n) k = pos (n / k)
quotient (negsuc n) k = negate ((suc n) / k)

abbrev pub remainder : ℤ → ℕ → ℤ
remainder (pos n) k = pos (n % k)
remainder (negsuc n) k = negate ((suc n) % k)

display : ℤ → Text
display value =
    let whole = print (quotient value tinybars_per_hbar) in
    let frac = drop_end_zeros (pad_start 8 b'0' (print (remainder value tinybars_per_hbar))) in
    if ltb 0 (length frac) then whole ++ (b'.' ∷ (frac ++ text " HBAR")) else whole ++ text " HBAR"

-- `none` is the `SyntaxError` of `BigInt`.
unfoldable pub format_tinybars : Text → Option Text
unfolding display
format_tinybars tinybars = elim (parse tinybars) [ none ↦ none | some value ↦ some (display value) ]

unfoldable pub hashscan_url : Text → Text → Text
hashscan_url transaction_id network =
    let net = if network === hedera_mainnet then text "mainnet" else text "testnet" in
    text "https://hashscan.io/" ++ (net ++ (text "/transaction/" ++ transaction_id))
