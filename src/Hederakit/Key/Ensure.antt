-- ===== src/Hederakit/Key/Ensure.antt =====
-- The key that was generated stays the operator's key.
use mach.Base.{
  suc, ◌≡◌, ◌∙◌, sym, refl, ap, false, some, [], arith, Bool-cases, Option-cases, inl, inr,
}
use mach.Js.Text.{Text, text, ◌===◌}
use mach.Js.Text.Laws.{eq_refl, eq_sound}
use mach.Hederakit.Key.{
  OperatorKeyFile, File, broken, key_file, Disk, Sdk, Operator, Outcome, done, failed, write_file,
  read_operator, load_operator, make_operator, ensure_operator, address_of, new_file,
  remember_account_id,
}

-- The SDK reads the keys that it printed.
pub record ReadsOwnKeys {Key : Type 0} (sdk : Sdk Key) : Type 0 where
  pub reads : (key : Key) → sdk.from_der (sdk.to_der key) ≡ some key
  pub prints : (key : Key) → (sdk.to_der key === []) ≡ false

module _ {Key : Type 0} (sdk : Sdk Key) where
  -- A file that is there is never touched, whatever it holds.
  pub ensure_operator_keeps :
      (path : Text) (d : Disk) (file : File)
      → d.files path ≡ some file
      → ensure_operator sdk path d ≡ (load_operator sdk path d, d)
  unfolding ensure_operator
  ensure_operator_keeps path d file e = rw (e, ensure_operator) refl

  files-write_file :
      (path : Text) (file : OperatorKeyFile) (d : Disk)
      → (write_file path file d).files path ≡ some (key_file file)
  unfolding write_file
  files-write_file path file d = rw (eq_refl path) refl

  load_found :
      (path : Text) (file : OperatorKeyFile) (d : Disk)
      → d.files path ≡ some (key_file file)
      → load_operator sdk path d ≡ read_operator sdk path file
  unfolding load_operator
  load_found path file d e = rw (e, load_operator) refl

  made : Text → Disk → Operator Key
  made path d =
      let key = sdk.generate d.generated in
      record { key = key; evm_address = address_of sdk key; account_id = []; path = path }

  read-new_file :
      (own : ReadsOwnKeys sdk) (path : Text) (d : Disk)
      → read_operator sdk path (new_file sdk d) ≡ done (made path d)
  unfolding read_operator text made
  read-new_file own path d =
      let key = sdk.generate d.generated in rw (own.prints key, own.reads key) refl

  make-load :
      (own : ReadsOwnKeys sdk) (path : Text) (d : Disk) (op : Operator Key)
      → (make_operator sdk path d).0 ≡ done op
      → let d' = (make_operator sdk path d).1 in
        (load_operator sdk path d' ≡ done op) × ((file : File) × (d'.files path ≡ some file))
  unfolding make_operator made
  make-load own path d op e = elim (Bool-cases d.writable) [
    | inr no_disk ↦ absurd (ground (arith, no_disk))
    | inl disk ↦
        let d' : Disk = record d { generated = suc d.generated } in
        let m : make_operator sdk path d
            ≡ (done (made path d), write_file path (new_file sdk d) d') =
          rw (disk, make_operator) refl in
        let found = files-write_file path (new_file sdk d) d' in
        let same : done (made path d) ≡ done op = sym (ap (λ r. r.0) m) ∙ e in
        rw m (
          load_found path (new_file sdk d) (write_file path (new_file sdk d) d') found
              ∙ read-new_file own path d
              ∙ same,
          (key_file (new_file sdk d), found),
        )
  ]

  -- Setting up the operator twice gives the same operator, and the second time changes nothing,
  -- provided the SDK reads the keys that it printed.
  pub ensure_operator_idempotent :
      (own : ReadsOwnKeys sdk) (path : Text) (d : Disk) (op : Operator Key)
      → (ensure_operator sdk path d).0 ≡ done op
      → let d' = (ensure_operator sdk path d).1 in ensure_operator sdk path d' ≡ (done op, d')
  unfolding ensure_operator
  ensure_operator_idempotent own path d op e = elim (Option-cases (d.files path)) [
    | inl missing ↦
        let m : ensure_operator sdk path d ≡ make_operator sdk path d =
          rw (missing, ensure_operator) refl in
        let (loads, (file, found)) = make-load own path d op (sym (ap (λ r. r.0) m) ∙ e) in
        let d' = (make_operator sdk path d).1 in
        rw m (ensure_operator_keeps path d' file found ∙ ap (λ x. (x, d')) loads)
    | inr (file, found) ↦
        let k = ensure_operator_keeps path d file found in
        rw k (k ∙ ap (λ x. (x, d)) (sym (ap (λ r. r.0) k) ∙ e))
  ]

  set_account : Text → Outcome (Operator Key) → Outcome (Operator Key)
  set_account account_id (done op) = done (record op { account_id = account_id })
  set_account account_id (failed why) = failed why

  read-set_account :
      (path account_id : Text) (file : OperatorKeyFile)
      → read_operator sdk path (record file { account_id = account_id })
        ≡ set_account account_id (read_operator sdk path file)
  unfolding read_operator set_account
  read-set_account path account_id file = elim (Bool-cases (file.private_key === [])) [
    | inl blank ↦ rw blank refl
    | inr kept ↦ elim (Option-cases (sdk.from_der file.private_key)) [
      | inl bad ↦ rw (kept, bad) refl
      | inr (key, good) ↦ rw (kept, good) refl
    ]
  ]

  -- Once an account id is remembered, a key file that loaded before loads with that account id,
  -- and with the same key and address.
  pub load-remember :
      (path account_id : Text) (d : Disk) (op : Operator Key)
      → load_operator sdk path d ≡ done op
      → (remember_account_id path account_id d).0 ≡ done tt
      → load_operator sdk path (remember_account_id path account_id d).1
        ≡ done (record op { account_id = account_id })
  unfolding remember_account_id set_account
  load-remember path account_id d op e e' = elim (Option-cases (d.files path)) [
    | inl missing ↦ absurd (ground (arith, missing))
    | inr (broken, found) ↦ absurd (ground (arith, found))
    | inr (key_file file, found) ↦
        let before : read_operator sdk path file ≡ done op =
          sym (load_found path file d found) ∙ e in
        let with_id : (a : Text)
            → read_operator sdk path (record file { account_id = a })
              ≡ done (record op { account_id = a }) =
          λ a. read-set_account path a file ∙ ap (set_account a) before in
        elim (Bool-cases (file.account_id === account_id)) [
          | inl same ↦
              let r : remember_account_id path account_id d ≡ (done tt, d) =
                rw (found, same, remember_account_id) refl in
              rw r (
                load_found path file d found
                ∙ with_id file.account_id
                ∙ ap (λ a. done (record op { account_id = a }))
                    (eq_sound file.account_id account_id same))
          | inr other ↦ elim (Bool-cases d.writable) [
            | inr no_disk ↦ absurd (ground (arith, found, other, no_disk))
            | inl disk ↦
                let file' = record file { account_id = account_id } in
                let r : remember_account_id path account_id d ≡ (done tt, write_file path file' d) =
                  rw (found, other, disk, remember_account_id) refl in
                rw r (
                  load_found path file' (write_file path file' d) (files-write_file path file' d)
                  ∙ with_id account_id)
          ]
        ]
  ]
