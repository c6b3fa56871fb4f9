-- ===== src/Registry/Tests/Fields.antt =====
-- The schema and the view of a provider on the small registry.
use mach.Base.{◌≡◌, refl, true}
use mach.Js.Text.{text, ◌===◌, starts_with}
use mach.Types.Node.{NodeListing}
use mach.Registry.Patterns.{
  is_digit, is_node_id, is_whole_amount, runs, is_hedera_id, is_network, is_evm_address,
}
use mach.Registry.Validate.{
  heartbeat_schema, short_text, http_url, positive_to, nonnegative_to, nonnegative, gpu_schema,
  limits_schema, leases_schema, identity_schema,
}
use mach.Registry.Validate.Bounds.{IsSound, heartbeat_schema-IsSound}
use mach.Registry.Store.{to_listing}
use mach.Registry.Tests.{scheme_of, first_beat, owned}

accepted : heartbeat_schema scheme_of first_beat ≡ true
unfolding heartbeat_schema short_text http_url positive_to nonnegative_to nonnegative gpu_schema
    limits_schema leases_schema identity_schema is_digit is_node_id is_whole_amount runs
    is_hedera_id is_network is_evm_address text starts_with ◌===◌
accepted = refl

heartbeat_schema-IsSound_example : IsSound scheme_of first_beat
heartbeat_schema-IsSound_example = heartbeat_schema-IsSound scheme_of first_beat accepted

abbrev listed : NodeListing
listed = to_listing 2000 owned
