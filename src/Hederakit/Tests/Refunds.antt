-- ===== src/Hederakit/Tests/Refunds.antt =====
-- A refund of six hundred tinybars by an operator whose account is in its key file.
use mach.Base.{◌≡◌, refl, none, some, [], ◌∷◌}
use mach.Base.Int.{pos}
use mach.Js.Text.{Text, text, ◌===◌, trim}
use mach.Js.BigInt.{parse, print_nat}
use mach.Hederakit.Key.{key_file, load_operator, read_operator}
use mach.Hederakit.Ledger.{
  hbar_transfer, receipt, Network, World, ok, execute, parse_account_id, send_hbar,
  resolve_operator,
}
use mach.Hederakit.Commands.{GlobalOptions, Line, refunded, Ledger, ends_with, connect, run_refund}
use mach.Hederakit.Commands.Refund.{Transferred, run_refund-Transferred}
use mach.Hederakit.Tests.{sdk, stored, disk}

abbrev net : Network
net = record {
  submit = λ before tx. receipt (text "SUCCESS") (text "0.0.5@1.2") none none;
  agent_of = λ before registry address. some (pos 0);
  fetch = λ url. none;
  encode = λ t. t;
  env_mirror_url = none;
  account = λ t. some t;
}

abbrev nets : Ledger → Network
nets ledger = net

abbrev pub options : GlobalOptions
options = record { key_file = text "/op"; network = text "hedera:testnet"; mirror_url = none }

abbrev pub before_refund : World
before_refund = record {
  disk = record disk { files = λ p. some (key_file (record stored { account_id = text "0.0.5" })) };
  submitted = [];
}

abbrev after : World
after = record before_refund {
  submitted = hbar_transfer (text "0.0.5") (text "0.0.9") (pos 600) (text "s1") ∷ [];
}

abbrev line : Line
line = refunded (text "0.0.5@1.2") (text "600") (text "0.0.9")

sent :
    run_refund sdk nets options (text "0.0.9") (text "600") (text "s1") before_refund
    ≡ (ok line, after)
unfolding run_refund connect load_operator read_operator resolve_operator parse_account_id send_hbar
    execute parse print_nat ends_with text ◌===◌ trim
sent = refl

run_refund-Transferred_example :
    (transaction : Text) × (amount : Text) × (line ≡ refunded transaction amount (text "0.0.9"))
    × Transferred net
        (text "0.0.9")
        (text "600")
        (text "s1")
        amount
        before_refund.submitted
        after.submitted
run_refund-Transferred_example =
    run_refund-Transferred sdk nets options (text "0.0.9") (text "600") (text "s1") line
      before_refund after sent
