-- ===== src/Mcp/Search/Online.antt =====
-- A search of what the registry itself lists: the two programs together.
use mathlib.Core.List.{Memᴰ}
use mach.Base.{Mem-map, Mem-keep, ℕ, ◌≡◌, Bool, true, not, ◌||◌, Option, List, keep}
use mach.Base.Int.{ℤ}
use mach.Types.Node.{NodeListing}
use mach.Registry.Store.{NodeRow, Nodes, is_online, order_by, to_listing, select_nodes, list_nodes}
use mach.Registry.Store.Listing.{Mem-order_by}
use mach.Mcp.World.{ok}
use mach.Mcp.Search.{select_offers}
use mach.Mcp.Search.Results.{IsOffered, select_offers_iff}

-- Whatever a search finds in the registry's listing of online nodes is a row of the table that is
-- online, shown as the registry lists it, with terms that meet what was asked.
pub search-online :
    (now : ℕ) (t : Nodes) (require_gpu : Option Bool) (most : Option ℤ) (kept : List NodeListing)
    (node : NodeListing)
    → select_offers require_gpu most (list_nodes now true t) ≡ ok kept
    → Memᴰ node kept
    → (r : NodeRow) × Memᴰ r t
      × (is_online now r ≡ true)
      × (node ≡ to_listing now r)
      × IsOffered require_gpu most node
unfolding list_nodes select_nodes
search-online now t require_gpu most kept node e m =
    let (listed, offered) =
      (select_offers_iff require_gpu most (list_nodes now true t) kept node e).0 m in
    let online = keep (λ r. not true || is_online now r) t in
    let (r, placed, same) = Mem-map (to_listing now) node (order_by now online) listed in
    let (inside, up) =
      Mem-keep (λ r. not true || is_online now r) r t (Mem-order_by now r online placed) in
    (r, inside, up, same, offered)
