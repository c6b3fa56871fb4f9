-- ===== src/Client/Browser/SshKey/ReadBack.antt =====
-- A reader of OpenSSH's public keys, which finds the name and the key that were written.
use mach.Base.{
  ℕ, ◌+◌, ◌*◌, ◌/◌, ◌%◌, ◌^◌, ◌<◌, ◌≡◌, refl, sym, append-nil, ap, ◌∙◌, List, [], ◌∷◌, ◌++◌, arith,
  All, All-append, length, take, drop,
}
use mach.Js.Text.{text}
use mach.Client.Browser.Base64.Decode.{decode, decode-base64}
use mach.Client.Browser.SshKey.{ssh_ed25519, uint32, key_blob, encode_openssh_public_key}

-- A string of the wire format with what follows it.
unfoldable pub read_string : List ℕ → List ℕ × List ℕ
read_string (a ∷ b ∷ c ∷ d ∷ s) =
    let n = a * 2 ^ 24 + b * 2 ^ 16 + c * 2 ^ 8 + d in (take n s, drop n s)
read_string _ = ([], [])

take-append : (s t : List ℕ) → take (length s) (s ++ t) ≡ s
take-append [] t = refl
take-append (x ∷ s) t = ap (λ r. x ∷ r) (take-append s t)

drop-append : (s t : List ℕ) → drop (length s) (s ++ t) ≡ t
drop-append [] t = refl
drop-append (x ∷ s) t = drop-append s t

uint32_back :
    (n : ℕ)
    → n < 2 ^ 32
    → n / 2 ^ 24 % 256 * 2 ^ 24 + n / 2 ^ 16 % 256 * 2 ^ 16 + n / 2 ^ 8 % 256 * 2 ^ 8 + n % 256 ≡ n
uint32_back n h = omega arith

read_string-uint32 :
    (s t : List ℕ) → length s < 2 ^ 32 → read_string (uint32 (length s) ++ (s ++ t)) ≡ (s, t)
unfolding read_string uint32
read_string-uint32 s t h = rw (uint32_back (length s) h, take-append s t, drop-append s t) refl

uint32-bytes : (n : ℕ) → All (λ b. b < 256) (uint32 n)
unfolding uint32
uint32-bytes n = (omega arith, (omega arith, (omega arith, (omega arith, tt))))

name-bytes : All (λ b. b < 256) ssh_ed25519
unfolding text
name-bytes = omega arith

key_blob-bytes : (raw : List ℕ) → All (λ b. b < 256) raw → All (λ b. b < 256) (key_blob raw)
unfolding key_blob
key_blob-bytes raw h =
    let rest = All-append _ (uint32 (length raw)) raw (uint32-bytes (length raw)) h in
    let named = All-append _ ssh_ed25519 (uint32 (length raw) ++ raw) name-bytes rest in
    All-append _ (uint32 (length ssh_ed25519)) _ (uint32-bytes (length ssh_ed25519)) named

name-short : length ssh_ed25519 < 2 ^ 32
unfolding text
name-short = omega arith

-- Of a public key of bytes and below 2^32 of them, what is encoded for OpenSSH reads back as the
-- name of the algorithm and the key, with nothing after it.
pub read-encode :
    (raw : List ℕ)
    → All (λ b. b < 256) raw
    → length raw < 2 ^ 32
    → let (name, rest) = read_string (decode (encode_openssh_public_key raw)) in
      (name ≡ ssh_ed25519) × (read_string rest ≡ (raw, []))
unfolding encode_openssh_public_key key_blob
read-encode raw h short =
    let back = decode-base64 (key_blob raw) (key_blob-bytes raw h) in
    let first = read_string-uint32 ssh_ed25519 (uint32 (length raw) ++ raw) name-short in
    let second = read_string-uint32 raw [] short in
    let end = ap (λ t. read_string (uint32 (length raw) ++ t)) (sym (append-nil raw)) ∙ second in
    (
      ap (λ b. (read_string b).0) back ∙ ap (λ r. r.0) first,
      ap (λ b. read_string (read_string b).1) back ∙ (ap (λ r. read_string r.1) first ∙ end),
    )
