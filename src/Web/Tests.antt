-- ===== src/Web/Tests.antt =====
-- Amounts, a stored session and a wallet's connection on known inputs.
use mach.Base.{◌≡◌, ◌≢◌, refl, true, false, none, some, List, [], ◌∷◌, arith}
use mach.Base.Int.{pos}
use mach.Js.Text.{text, ◌===◌, pad_start, drop_end_zeros}
use mach.Js.Text.Laws.{eq_iff}
use mach.Types.Session.{SessionStatus}
use mach.Web.Amounts.{hbar, hbar_short, has_nonzero, drop_front_zeros}
use mach.Web.Storage.{StoredSession, Browser, load_session, save_session}
use mach.Web.Storage.Keeping.{load-save}
use mach.Web.Wallet.{
  Connector, connected, signer, remember_connector, last_connector, find_connector, connect_start,
  connect_finish, restore_from, restore_start, Event, mount, connect_click, answer, step, run,
  first_page,
}
use mach.Web.Wallet.Remembered.{run_remembers}

amounts :
    (hbar (text "123456789") ≡ text "1.23456789")
    × (hbar (text "600") ≡ text "0.000006")
    × (hbar (text "0") ≡ text "0")
    × (hbar_short 4 (text "1000200") ≡ text "0.01")
    × (hbar_short 4 (text "600") ≡ text "<0.0001")
unfolding hbar hbar_short has_nonzero drop_front_zeros pad_start drop_end_zeros text ◌===◌
amounts = (refl, refl, refl, refl, refl)

zero_shown : hbar_short 4 (text "000") ≡ text "0"
unfolding hbar_short has_nonzero drop_front_zeros pad_start drop_end_zeros text ◌===◌
zero_shown = refl

abbrev pub session : StoredSession
session = record {
  created = record {
    session_id = text "s1";
    lease_id = text "l1";
    token = some (text "t1");
    status = SessionStatus.active;
    expires_at = text "1970-01-01T00:01:01.000Z";
    certificate = text "cert";
    ssh_user = text "renter";
    ssh_host = none;
    ssh_principal = text "renter";
    jupyter_url = text "https://j.one";
    jupyter_token = text "jt";
    tunnel_mode = text "quick";
    transaction = text "0.0.99@1.2";
    payer = text "0.0.99";
    amount_tinybars = text "60000";
    price_tinybars_per_second = text "1000";
    credit_tinybars = text "60000";
    low_credits = false;
    seconds = pos 60;
    session_seconds = none;
    fully_paid = none;
  };
  created_at = none;
  seconds_remaining = some (pos 30);
  paid_seconds = none;
  gpu = none;
  burned_tinybars = none;
  refunded_tinybars = none;
  settle_state = none;
  error = none;
  ended_remotely = none;
}

abbrev pub browser : Browser
browser = record { items = []; blocked = false; full = false }

load-save_example :
    (load_session 4000 (text "gpu-1") (save_session 1000 (text "gpu-1") session browser)).0
    ≡ some session
load-save_example = load-save 1000 4000 (text "gpu-1") session browser refl refl (omega arith)

different : text "gpu-2" ≢ text "gpu-1"
unfolding text ◌===◌
different h = let e : false ≡ true = (eq_iff (text "gpu-2") (text "gpu-1")).1 h in cc

abbrev dev_key : Connector
dev_key = record {
  id = text "dev-key";
  label = text "Dev key";
  available = true;
  unavailable_reason = none;
  uses_local_key = true;
}

abbrev clicks : List Event
clicks = mount ∷ connect_click (text "dev-key") ∷ answer (signer (text "0.0.9")) ∷ []

is_shown :
    (run (dev_key ∷ []) clicks (first_page none)).state ≡ connected (text "dev-key") (text "0.0.9")
unfolding run step connect_start connect_finish restore_start restore_from last_connector
    find_connector remember_connector text ◌===◌
is_shown = refl

run_remembers_example :
    last_connector (run (dev_key ∷ []) clicks (first_page none)) ≡ some (text "dev-key")
run_remembers_example =
    run_remembers (dev_key ∷ []) clicks none (text "dev-key") (text "0.0.9") is_shown
