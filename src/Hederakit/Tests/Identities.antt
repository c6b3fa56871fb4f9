-- ===== src/Hederakit/Tests/Identities.antt =====
-- A node that registers again, on a network whose registry numbers its agents from one.
use mach.Base.{ℕ, ◌≡◌, ◌⊎◌, refl, true, false, none, some, List, [], ◌∷◌, ◌++◌}
use mach.Base.Int.{ℤ, pos, leb_ℤ}
use mach.Js.Text.{text, ◌===◌, trim}
use mach.Js.BigInt.{print, print_nat}
use mach.Hederakit.Key.{Operator, load_operator, read_operator}
use mach.Hederakit.Ledger.{
  Transaction, contract_call, receipt, Network, World, ok, execute, parse_account_id, agent_id_of,
  new_agent, update_agent, resolve_operator,
}
use mach.Hederakit.Commands.{Line, agent, Ledger, ends_with, connect, run_identity_register}
use mach.Hederakit.Commands.Identity.{Updated, Created, run_identity_register-Registered}
use mach.Hederakit.Tests.{sdk}
use mach.Hederakit.Tests.Refunds.{options, before_refund}

abbrev agents : List Transaction → ℕ
agents [] = 0
agents (tx ∷ txs) = 1

abbrev net : Network
net = record {
  submit = λ before tx. receipt (text "SUCCESS") (text "0.0.5@1.3") none none;
  agent_of = λ before registry address. some (pos (agents before));
  fetch = λ url. none;
  encode = λ t. t;
  env_mirror_url = none;
  account = λ t. some t;
}

abbrev nets : Ledger → Network
nets ledger = net

abbrev registered : World
registered = record before_refund {
  submitted =
      contract_call (text "0.0.7") (text "newAgent") 400000 (text "old" ∷ text "0xA" ∷ []) ∷ [];
}

abbrev moved : World
moved = record registered {
  submitted =
      registered.submitted
      ++ contract_call (text "0.0.7") (text "updateAgent") 400000
          (text "1" ∷ text "new" ∷ text "0xA" ∷ [])
        ∷ [];
}

abbrev line : Line
line = agent (text "1") (text "0xA") (text "0.0.5@1.3") false

registers :
    run_identity_register sdk nets options (text "0.0.7") (text "new") registered ≡ (ok line, moved)
unfolding run_identity_register connect load_operator read_operator resolve_operator
    parse_account_id agent_id_of new_agent update_agent execute print print_nat ends_with text ◌===◌
    trim
registers = refl

run_identity_register-Registered_example :
    (operator : Operator ℕ) × (existing : ℤ) × ((connect sdk nets options registered).0
      ≡ ok operator)
    × (net.agent_of registered.submitted (text "0.0.7") operator.evm_address ≡ some existing)
    × (((leb_ℤ existing (pos 0) ≡ false)
          × Updated net
              (text "0.0.7")
              (text "new")
              operator.evm_address
              existing
              line
              registered.submitted
              moved.submitted)
        ⊎ ((leb_ℤ existing (pos 0) ≡ true)
            × Created net
                (text "0.0.7")
                (text "new")
                operator.evm_address
                line
                registered.submitted
                moved.submitted))
run_identity_register-Registered_example =
    run_identity_register-Registered sdk nets options (text "0.0.7") (text "new") line registered
      moved registers
