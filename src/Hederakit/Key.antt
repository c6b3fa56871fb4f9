-- ===== src/Hederakit/Key.antt =====
-- hederakit/src/key.ts: the operator's key file. The disk is a map from paths to what JSON reads of
-- a file; an empty text stands for a field that is missing as well.
pub mod Ensure
use mach.Base.{ℕ, suc, Bool, true, false, Option, none, some, List, [], ◌∷◌, ◌++◌, if◌then◌else◌}
use mach.Js.Text.{Text, text, ◌===◌}
use mach.Js.Date.{to_iso_string}

pub record OperatorKeyFile : Type 0 where
  pub private_key : Text
  pub evm_address : Text
  pub account_id : Text
  pub created_at : Text

-- A file that is no JSON object, or one that is.
pub data File : Type 0 where
  broken : File
  key_file : OperatorKeyFile → File

-- `writable` is false where a write throws. `generated` counts the keys made so far.
pub record Disk : Type 0 where
  pub files : Text → Option File
  pub writable : Bool
  pub generated : ℕ
  pub now : ℕ

-- What the code uses of the `PrivateKey` of the Hedera SDK; `to_evm` is the address of the public
-- half, without its `0x`.
pub record Sdk (Key : Type 0) : Type 0 where
  pub generate : ℕ → Key
  pub to_der : Key → Text
  pub from_der : Text → Option Key
  pub to_evm : Key → Text

pub record Operator (Key : Type 0) : Type 0 where
  pub key : Key
  pub evm_address : Text
  pub account_id : Text
  pub path : Text

pub data KeyError : Type 0 where
  no_operator_key no_private_key malformed_file malformed_key disk_failed : (path : Text) → KeyError

pub data Outcome (A : Type 0) : Type 0 where
  done : A → Outcome A
  failed : KeyError → Outcome A

unfoldable pub write_file : Text → OperatorKeyFile → Disk → Disk
write_file path file d = record d {
  files = λ p. if p === path then some (key_file file) else d.files p;
}

-- `a || b`
abbrev pub or_text : Text → Text → Text
or_text [] b = b
or_text (c ∷ s) b = c ∷ s

module _ {Key : Type 0} (sdk : Sdk Key) where
  abbrev pub address_of : Key → Text
  address_of key = text "0x" ++ sdk.to_evm key

  unfoldable pub read_operator : Text → OperatorKeyFile → Outcome (Operator Key)
  read_operator path file =
      if file.private_key === []
      then failed (no_private_key path)
      else elim (sdk.from_der file.private_key) [
        | none ↦ failed (malformed_key path)
        | some key ↦ done (record {
          key = key;
          evm_address = or_text file.evm_address (address_of key);
          account_id = file.account_id;
          path = path;
        })
      ]

  unfoldable pub load_operator : Text → Disk → Outcome (Operator Key)
  unfolding read_operator
  load_operator path d = elim (d.files path) [
    | none ↦ failed (no_operator_key path)
    | some broken ↦ failed (malformed_file path)
    | some (key_file file) ↦ read_operator path file
  ]

  abbrev pub new_file : Disk → OperatorKeyFile
  new_file d =
      let key = sdk.generate d.generated in
      record {
        private_key = sdk.to_der key;
        evm_address = address_of key;
        account_id = [];
        created_at = to_iso_string d.now;
      }

  -- What `ensureOperator` does where there is no file.
  unfoldable pub make_operator : Text → Disk → Outcome (Operator Key) × Disk
  unfolding write_file
  make_operator path d =
      let key = sdk.generate d.generated in
      let d' : Disk = record d { generated = suc d.generated } in
      if d.writable
      then (
        done (record { key = key; evm_address = address_of key; account_id = []; path = path }),
        write_file path (new_file d) d',
      )
      else (failed (disk_failed path), d')

  unfoldable pub ensure_operator : Text → Disk → Outcome (Operator Key) × Disk
  unfolding load_operator make_operator
  ensure_operator path d = elim (d.files path) [
    | some file ↦ (load_operator path d, d)
    | none ↦ make_operator path d
  ]

-- `rememberAccountId`
unfoldable pub remember_account_id : Text → Text → Disk → Outcome (Unit {0}) × Disk
unfolding write_file
remember_account_id path account_id d = elim (d.files path) [
  | none ↦ (failed (disk_failed path), d)
  | some broken ↦ (failed (malformed_file path), d)
  | some (key_file file) ↦
      if file.account_id === account_id
      then (done tt, d)
      else if d.writable
      then (done tt, write_file path (record file { account_id = account_id }) d)
      else (failed (disk_failed path), d)
]
