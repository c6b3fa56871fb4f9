-- ===== src/Mcp/Tests/Opening.antt =====
-- Configuration, credentials and the opening of a session in the small world.
use mach.Base.{◌≡◌, refl, none, some}
use mach.Js.Text.{text, ◌===◌, trim, drop_end_slash}
use mach.Js.BigInt.{parse}
use mach.Mcp.World.{err, disk_failed}
use mach.Mcp.Config.{Env, loaded, load_config}
use mach.Mcp.Credentials.{
  KeyEnv, KeyType, RenterCredentials, found, read_key_type, renter_credentials,
}
use mach.Js.Text.{fold_case}
use mach.Base.{[], ◌∷◌}
use mach.Mcp.Payer.{acceptable, pay_for, pay}
use mach.Mcp.Client.{create_session, as_session}
use mach.Mcp.Tools.{
  perform, perform_open_session, create_ssh_identity, create_payer, save_certificate,
}
use mach.Mcp.Tests.{action, lossy, demand, config, start}

abbrev env : Env
env = record {
  mach402_registry_url = some (text "https://registry.one");
  mach402_max_tinybars_per_payment = none;
  mach402_max_tinybars_per_day = some (text "100000");
  mach402_confirm_above_tinybars = some (text "50000");
  hedera_network = none;
}

configured : load_config env ≡ loaded config
unfolding load_config parse text trim
configured = refl

abbrev keys : KeyEnv
keys = record {
  hedera_account_id = some (text " 0.0.99");
  hedera_private_key = some (text "302e");
  hedera_key_type = none;
}

abbrev credentials : RenterCredentials
credentials = record {
  account_id = text "0.0.99";
  private_key = text "302e";
  key_type = KeyType.ecdsa;
}

readable : renter_credentials keys ≡ found credentials
unfolding renter_credentials read_key_type fold_case text trim ◌===◌
readable = refl

-- The payment is signed, and the session is lost with its certificate.
lost :
    ((perform lossy config action start).0 ≡ err disk_failed)
    × ((perform lossy config action start).1.paid ≡ demand ∷ [])
unfolding perform perform_open_session create_ssh_identity create_payer save_certificate
    create_session pay_for pay as_session acceptable parse text trim ◌===◌ drop_end_slash
lost = (refl, refl)
