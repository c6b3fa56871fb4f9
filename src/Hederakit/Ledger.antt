-- ===== src/Hederakit/Ledger.antt =====
-- hederakit/src/client.ts, transfer.ts, hcs.ts and contract.ts: what the sidecar submits to Hedera, and
-- the operator it acts for. The network is a parameter: `submit` tells the fate of a transaction after
-- the ones before it, and `agent_of` what the identity registry answers then.
use mach.Base.{ℕ, not, Option, none, some, List, [], ◌∷◌, ◌++◌, if◌then◌else◌}
use mach.Base.Int.{ℤ, pos, leb_ℤ}
use mach.Js.Text.{Text, text, ◌===◌, slice_to}
use mach.Js.BigInt.{parse, print}
use mach.Hederakit.Key.{Operator, KeyError, Disk, Outcome, remember_account_id}
use mach.Hederakit.Mirror.{MirrorAccount, MirrorError, Answer, lookup_account}
use mach.Hederakit.Mirror

pub data Transaction : Type 0 where
  hbar_transfer : (debit credit : Text) → (amount : ℤ) → (memo : Text) → Transaction
  topic_create : (memo : Text) → Transaction
  topic_message : (topic message : Text) → Transaction
  contract_call : (contract function : Text) → (gas : ℕ) → (args : List Text) → Transaction

-- `execute` or `getReceipt` threw, or the receipt with the transaction's id.
pub data Fate : Type 0 where
  threw : Text → Fate
  receipt : (status transaction : Text) → (topic_id topic_sequence_number : Option Text) → Fate

pub data Error : Type 0 where
  key_error : KeyError → Error
  mirror_error : MirrorError → Error
  no_account no_message no_topic : Error
  bad_amount not_positive bad_account : Text → Error
  failed_on_chain : Text → Error

pub data Result {ℓ} (A : Type ℓ) : Type ℓ where
  ok : A → Result A
  err : Error → Result A

-- What a command reads and writes, `submitted` with the oldest first.
pub record World : Type 0 where
  pub disk : Disk
  pub submitted : List Transaction

abbrev pub M : Type 0 → Type 0
M A = World → Result A × World

infixl 5 ◌>>=◌
abbrev pub next : {A B : Type 0} → Result A → (A → M B) → M B
next (ok a) f w = f a w
next (err e) f w = (err e, w)

abbrev pub ◌>>=◌ : {A B : Type 0} → M A → (A → M B) → M B
◌>>=◌ m f w = next (m w).0 f (m w).1

abbrev pub return : {A : Type 0} → A → M A
return a w = (ok a, w)

abbrev pub throw : {A : Type 0} → Error → M A
throw e w = (err e, w)

pub record Network : Type 0 where
  pub submit : List Transaction → Transaction → Fate
  pub agent_of : List Transaction → (registry address : Text) → Option ℤ
  pub fetch : Text → Option Mirror.Response
  pub encode : Text → Text
  pub env_mirror_url : Option Text
  pub account : Text → Option Text

abbrev pub read_answer : {A : Type 0} → Answer → (Option MirrorAccount → M A) → M A
read_answer (Answer.answered found) f w = f found w
read_answer (Answer.failed e) f w = (err (mirror_error e), w)

abbrev pub read_outcome : {A B : Type 0} → Outcome A → (A → M B) → M B
read_outcome (Outcome.done a) f w = f a w
read_outcome (Outcome.failed e) f w = (err (key_error e), w)

-- A transaction that was executed, with its receipt; what was submitted stays submitted.
abbrev pub Receipt : Type 0
Receipt = Text × Text × Option Text × Option Text

abbrev receipt_of : Fate → Result Receipt
receipt_of (threw message) = err (failed_on_chain message)
receipt_of (receipt status transaction topic sequence) = ok (status, transaction, topic, sequence)

module _ (net : Network) where
  unfoldable pub execute : Transaction → M Receipt
  execute tx w =
      (receipt_of (net.submit w.submitted tx), record w { submitted = w.submitted ++ tx ∷ [] })

  unfoldable pub parse_account_id : Text → M Text
  parse_account_id id = elim (net.account id) [ none ↦ throw (bad_account id) | some a ↦ return a ]

  -- `-amount` is the debit: the transaction takes `amount` from the one and gives it to the other.
  unfoldable pub send_hbar : (debit credit tinybars memo : Text) → M (Text × Text)
  unfolding execute parse_account_id parse print
  send_hbar debit credit tinybars memo = elim (parse tinybars) [
    | none ↦ throw (bad_amount tinybars)
    | some amount ↦ if leb_ℤ amount (pos 0) then throw (not_positive tinybars) else do
      by ← parse_account_id debit
      to ← parse_account_id credit
      (status, transaction, _, _) ← execute (hbar_transfer by to amount (slice_to 100 memo))
      if not (status === text "SUCCESS")
          then throw (failed_on_chain status)
          else return (transaction, print amount)
  ]

  unfoldable pub create_topic : Text → M Text
  unfolding execute
  create_topic memo = do
    (_, _, topic, _) ← execute (topic_create memo)
    elim topic [ none ↦ throw no_topic | some id ↦ return id ]

  unfoldable pub publish : (topic message : Text) → M Text
  unfolding execute
  publish topic message = do
    (_, _, _, sequence) ← execute (topic_message topic message)
    return (elim sequence [ none ↦ text "0" | some n ↦ n ])

  unfoldable pub agent_id_of : (registry address : Text) → M ℤ
  agent_id_of registry address w = elim (net.agent_of w.submitted registry address) [
    | none ↦ (err (failed_on_chain (text "agentIdOf")), w)
    | some id ↦ (ok id, w)
  ]

  unfoldable pub new_agent : (registry domain address : Text) → M (ℤ × Text)
  unfolding execute agent_id_of
  new_agent registry domain address = do
    (_, transaction, _, _) ←
        execute (contract_call registry (text "newAgent") 400000 (domain ∷ address ∷ []))
    id ← agent_id_of registry address
    return (id, transaction)

  unfoldable pub update_agent : (registry : Text) → ℤ → (domain address : Text) → M Text
  unfolding execute print
  update_agent registry id domain address = do
    (_, transaction, _, _) ←
        execute
          (contract_call registry (text "updateAgent") 400000 (print id ∷ domain ∷ address ∷ []))
    return transaction

  unfoldable pub settle_session : (escrow session_id : Text) → M Text
  unfolding execute
  settle_session escrow session_id = do
    (_, transaction, _, _) ← execute (contract_call escrow (text "settle") 400000 (session_id ∷ []))
    return transaction

  -- What `resolveOperator` does with the answer of the mirror node.
  unfoldable pub keep_account :
      {Key : Type 0} → Operator Key → Option MirrorAccount → M (Operator Key)
  unfolding remember_account_id
  keep_account operator none w = (err no_account, w)
  keep_account operator (some a) w =
      let (kept, disk) = remember_account_id operator.path a.account_id w.disk in
      read_outcome kept (λ _. return (record operator { account_id = a.account_id }))
        (record w { disk = disk })

  -- The operator with its account, from the key file or else from the mirror node.
  unfoldable pub resolve_operator : {Key : Type 0} → Operator Key → Option Text → M (Operator Key)
  unfolding lookup_account keep_account
  resolve_operator operator mirror_url w =
      let url = net.env_mirror_url in
      let answer = lookup_account net.fetch net.encode operator.evm_address mirror_url url in
      if not (operator.account_id === [])
      then (ok operator, w)
      else read_answer answer (keep_account operator) w
