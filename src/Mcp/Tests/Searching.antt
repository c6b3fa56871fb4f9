-- ===== src/Mcp/Tests/Searching.antt =====
-- A search of the registry's own listing.
use mathlib.Core.List.{Memᴰ}
use mach.Base.{◌≡◌, refl, true, some, [], ◌∷◌}
use mach.Base.Int.{pos}
use mach.Js.Text.{text, trim}
use mach.Js.BigInt.{parse}
use mach.Types.Node.{NodeListing}
use mach.Registry.Store.{
  NodeRow, to_listing, new_row, list_nodes, select_nodes, order_by, place, is_online,
}
use mach.Mcp.Search.Online.{search-online}
use mach.Registry.Tests.{owned, table}
use mach.Mcp.World.{ok}
use mach.Mcp.Search.{select_offers, filter_price, price_fits}
use mach.Mcp.Search.Results.{IsOffered}

abbrev listed : NodeListing
listed = to_listing 2000 owned

found : select_offers (some true) (some (pos 2000)) (listed ∷ []) ≡ ok (listed ∷ [])
unfolding select_offers filter_price price_fits to_listing new_row parse text trim
found = refl

found_online :
    select_offers (some true) (some (pos 2000)) (list_nodes 2000 true table) ≡ ok (listed ∷ [])
unfolding select_offers filter_price price_fits list_nodes select_nodes order_by place is_online
    to_listing new_row parse text trim
found_online = refl

search-online_example :
    (r : NodeRow) × Memᴰ r table
    × (is_online 2000 r ≡ true)
    × (listed ≡ to_listing 2000 r)
    × IsOffered (some true) (some (pos 2000)) listed
search-online_example =
    search-online 2000 table (some true) (some (pos 2000)) (listed ∷ []) listed found_online
      (Memᴰ.head refl)
