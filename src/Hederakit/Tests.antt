-- ===== src/Hederakit/Tests.antt =====
-- The key file with keys that are numbers, and two answers of a mirror node.
mod Refunds
mod Identities
use mach.Base.{ℕ, ◌≡◌, refl, true, Option, none, some, [], ◌∷◌}
use mach.Js.Text.{Text, text, ◌===◌}
use mach.Hederakit.Key.{
  OperatorKeyFile, key_file, Disk, Sdk, Operator, done, load_operator, read_operator, make_operator,
  ensure_operator, remember_account_id,
}
use mach.Hederakit.Key.Ensure.{ReadsOwnKeys, ensure_operator_idempotent}
use mach.Hederakit.Mirror.{Response}

-- A key prints as itself behind a letter.
abbrev head_of : Text → Option ℕ
head_of [] = none
head_of (c ∷ []) = none
head_of (c ∷ d ∷ s) = some d

abbrev pub sdk : Sdk ℕ
sdk = record {
  generate = λ n. n;
  to_der = λ key. b'k' ∷ key ∷ [];
  from_der = head_of;
  to_evm = λ key. key ∷ [];
}

sdk-ReadsOwnKeys : ReadsOwnKeys sdk
unfolding ◌===◌
sdk-ReadsOwnKeys = record { reads = λ key. refl; prints = λ key. refl }

abbrev empty : Disk
empty = record { files = λ p. none; writable = true; generated = 65; now = 1000 }

abbrev made : Operator ℕ
made = record { key = 65; evm_address = text "0xA"; account_id = []; path = text "/op" }

first : (ensure_operator sdk (text "/op") empty).0 ≡ done made
unfolding ensure_operator make_operator text
first = refl

ensure_operator_idempotent_example :
    let d' = (ensure_operator sdk (text "/op") empty).1 in
    ensure_operator sdk (text "/op") d' ≡ (done made, d')
ensure_operator_idempotent_example =
    ensure_operator_idempotent sdk sdk-ReadsOwnKeys (text "/op") empty made first

abbrev pub stored : OperatorKeyFile
stored = record {
  private_key = text "kA";
  evm_address = text "0xA";
  account_id = [];
  created_at = [];
}

abbrev pub disk : Disk
disk = record empty { files = λ p. some (key_file stored) }

loaded : load_operator sdk (text "/op") disk ≡ done made
unfolding load_operator read_operator text ◌===◌
loaded = refl

remembered : (remember_account_id (text "/op") (text "0.0.5") disk).0 ≡ done tt
unfolding remember_account_id text ◌===◌
remembered = refl

abbrev unknown : Response
unknown = record { status = 404; body = none }
