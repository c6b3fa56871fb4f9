-- ===== src/Hederakit/Commands.antt =====
-- hederakit/src/cli.ts: the commands of the sidecar. Each prints one JSON object: what it did, or the
-- error with which it exits.
pub mod Steps
pub mod Refund
pub mod Identity
use mach.Base.{
  ℕ, Bool, true, false, not, Option, none, some, List, [], ◌∷◌, ◌++◌, if◌then◌else◌, length, drop,
  leb, ◌-◌, ◌&&◌,
}
use mach.Base.Int.{ℤ, pos, leb_ℤ}
use mach.Js.Text.{Text, text, ◌===◌, trim}
use mach.Js.BigInt.{print}
use mach.Hederakit.Key
use mach.Hederakit.Key.{Sdk, Operator, load_operator, ensure_operator}
use mach.Hederakit.Mirror.{MirrorAccount, lookup_account}
use mach.Hederakit.Ledger.{
  Transaction, Error, no_message, Result, ok, err, World, M, ◌>>=◌, return, throw, Network,
  read_answer, read_outcome, parse_account_id, send_hbar, create_topic, publish, agent_id_of,
  new_agent, update_agent, settle_session, resolve_operator,
}

pub record GlobalOptions : Type 0 where
  pub key_file : Text
  pub network : Text
  pub mirror_url : Option Text

pub data Command : Type 0 where
  keygen : (out : Option Text) → Command
  account_info : (account : Option Text) → Command
  hcs_create_topic : (memo : Text) → Command
  hcs_publish : (topic stdin : Text) → Command
  identity_register : (registry domain : Text) → Command
  refund : (to tinybars memo : Text) → Command
  escrow_settle : (contract session : Text) → Command

pub data Line : Type 0 where
  described : (evm_address account_id balance_tinybars : Text) → (funded : Bool) → Line
  not_found : (queried : Text) → Line
  found : MirrorAccount → Line
  topic : (topic_id : Text) → Line
  published : (topic_id sequence_number : Text) → Line
  agent : (agent_id agent_address transaction : Text) → (created : Bool) → Line
  refunded : (transaction amount_tinybars to : Text) → Line
  settled : (session_id transaction : Text) → Line
  error : Error → Line

-- `s.endsWith(end)`
unfoldable pub ends_with : Text → Text → Bool
ends_with end s = leb (length end) (length s) && drop (length s - length end) s === end

-- `Client.forMainnet()` or `Client.forTestnet()`
pub data Ledger : Type 0 where
  mainnet testnet : Ledger

abbrev pub ledger_of : Text → Ledger
ledger_of network = if ends_with (text ":mainnet") network then mainnet else testnet

module _ {Key : Type 0} (sdk : Sdk Key) (nets : Ledger → Network) (options : GlobalOptions) where
  abbrev pub net : Network
  net = nets (ledger_of options.network)

  unfoldable pub connect : M (Operator Key)
  unfolding load_operator resolve_operator parse_account_id ends_with
  connect w =
      read_outcome (load_operator sdk options.key_file w.disk)
        (λ operator. do
          resolved ← resolve_operator net operator options.mirror_url
          _ ← parse_account_id net resolved.account_id
          return resolved)
        w

  abbrev described_as : Operator Key → Option MirrorAccount → Line
  described_as operator none = described operator.evm_address [] (text "0") false
  described_as operator (some a) =
      described operator.evm_address a.account_id a.balance_tinybars true

  unfoldable pub run_keygen : Option Text → M Line
  unfolding ensure_operator lookup_account ends_with
  run_keygen out w =
      let path : Text = elim out [ none ↦ options.key_file | some p ↦ p ] in
      let (made, disk) = ensure_operator sdk path w.disk in
      read_outcome made
        (λ operator.
          read_answer
            (lookup_account net.fetch net.encode operator.evm_address options.mirror_url
              net.env_mirror_url)
            (λ account. return (described_as operator account)))
        (record w { disk = disk })

  abbrev look_up : Text → M Line
  look_up target =
      read_answer (lookup_account net.fetch net.encode target options.mirror_url net.env_mirror_url)
        (λ account. return (elim account [ none ↦ not_found target | some a ↦ found a ]))

  unfoldable pub run_account_info : Option Text → M Line
  unfolding load_operator lookup_account ends_with
  run_account_info account w = elim account [
    | some target ↦ look_up target w
    | none ↦
        read_outcome (load_operator sdk options.key_file w.disk)
          (λ operator. look_up operator.evm_address) w
  ]

  unfoldable pub run_identity_register : (registry domain : Text) → M Line
  unfolding connect agent_id_of new_agent update_agent print ends_with
  run_identity_register registry domain = do
    operator ← connect
    existing ← agent_id_of net registry operator.evm_address
    if not (leb_ℤ existing (pos 0))
        then (do
          transaction ← update_agent net registry existing domain operator.evm_address
          return (agent (print existing) operator.evm_address transaction false))
        else (do
          (id, transaction) ← new_agent net registry domain operator.evm_address
          return (agent (print id) operator.evm_address transaction true))

  unfoldable pub run_refund : (to tinybars memo : Text) → M Line
  unfolding connect send_hbar ends_with
  run_refund to tinybars memo = do
    operator ← connect
    (transaction, amount) ← send_hbar net operator.account_id to tinybars memo
    return (refunded transaction amount to)

  -- The body of a command's `try`, up to what it emits.
  unfoldable pub perform : Command → M Line
  unfolding run_keygen run_account_info connect create_topic publish run_identity_register
      run_refund settle_session ends_with
  perform (keygen out) = run_keygen out
  perform (account_info account) = run_account_info account
  perform (hcs_create_topic memo) = do _ ← connect; id ← create_topic net memo; return (topic id)
  perform (hcs_publish id stdin) =
      if trim stdin === []
      then throw no_message
      else do _ ← connect; sequence ← publish net id (trim stdin); return (published id sequence)
  perform (identity_register registry domain) = run_identity_register registry domain
  perform (refund to tinybars memo) = run_refund to tinybars memo
  perform (escrow_settle contract session) = do
    _ ← connect
    transaction ← settle_session net contract session
    return (settled session transaction)

  -- The line that is printed, the exit code, and what there is then.
  abbrev pub finish : Result Line → Line × ℕ
  finish (ok line) = (line, 0)
  finish (err e) = (error e, 1)

  unfoldable pub main : Command → World → (Line × ℕ) × World
  unfolding perform
  main command w = (finish (perform command w).0, (perform command w).1)
