-- ===== src/Mcp/Search.antt =====
-- packages/mcp-server/src/tools/searchComputeNodes.ts and registryClient.ts: the search for nodes.
pub mod Results
pub mod Online
use mach.Base.{
  ℕ, suc, ◌+◌, ◌*◌, Bool, true, false, not, ◌&&◌, ◌||◌, Option, none, some, List, [], ◌∷◌, ◌++◌,
  keep, map, if◌then◌else◌, leb,
}
use mach.Base.Int.{ℤ, pos, negsuc, leb_ℤ}
use mach.Js.Text.{Text, text, drop_end_slash}
use mach.Js.BigInt.{parse}
use mach.Types.Node.{LeaseOffer, NodeListing, PaymentMode}
use mach.Mcp.World.{Result, ok, err, Error, fetch_failed, node_error, syntax_error}

-- What the registry answers: a status, and the nodes of its body, unless it cannot be read.
pub record Listing : Type 0 where
  pub status : ℕ
  pub nodes : Result (List NodeListing)

abbrev pub list_url : Text → Text
list_url registry_url = drop_end_slash registry_url ++ text "/v1/nodes?online=true"

-- `fetch` of a URL, which may fail to answer
unfoldable pub list_online_nodes : (Text → Option Listing) → Text → Result (List NodeListing)
list_online_nodes fetch registry_url = elim (fetch (list_url registry_url)) [
  | none ↦ err fetch_failed
  | some r ↦
      if leb 200 r.status && leb r.status 299
      then r.nodes
      else err (
          node_error (text "GET " ++ (drop_end_slash registry_url ++ text "/v1/nodes")) r.status [])
]

abbrev pub is_metered : NodeListing → Bool
is_metered node = elim node.leases [
  | none ↦ false
  | some offer ↦ elim offer.payment_mode [ some PaymentMode.session ↦ true | _ ↦ false ]
]

abbrev pub has_gpu : NodeListing → Bool
has_gpu node = elim node.leases [ none ↦ false | some offer ↦ offer.gpu ]

abbrev pub price_of : NodeListing → Option Text
price_of node = elim node.leases [ none ↦ none | some offer ↦ offer.price_tinybars_per_second ]

-- `!require_gpu || …`, where an absent flag is false
abbrev pub gpu_fits : Option Bool → NodeListing → Bool
gpu_fits (some true) node = has_gpu node
gpu_fits _ node = true

-- The third filter; a malformed price throws.
unfoldable pub price_fits : Option ℤ → NodeListing → Result Bool
price_fits none node = ok true
price_fits (some most) node = elim (price_of node) [
  | none ↦ ok false
  | some price ↦ elim (parse price) [ none ↦ err (syntax_error price) | some z ↦ ok (leb_ℤ z most) ]
]

-- `Array.prototype.filter` with a test that may throw
unfoldable pub filter_price : Option ℤ → List NodeListing → Result (List NodeListing)
filter_price most [] = ok []
filter_price most (node ∷ nodes) =
    let rest = filter_price most nodes in
    elim (price_fits most node) [
      | err e ↦ err e
      | ok fits ↦ elim rest [ err e ↦ err e | ok kept ↦ ok (if fits then node ∷ kept else kept) ]
    ]

pub record Offer : Type 0 where
  pub node_id : Text
  pub node_url : Text
  pub gpu : Bool
  pub gpu_model : Option Text
  pub price_tinybars_per_second : Option Text
  pub chunk_seconds : Option ℤ
  pub min_seconds : Option ℤ
  pub max_seconds : Option ℤ
  pub ssh : Bool
  pub jupyter : Bool

-- `minutes * 60`
unfoldable pub in_seconds : ℤ → ℤ
in_seconds (pos n) = pos (n * 60)
in_seconds (negsuc n) = negsuc (n * 60 + 59)

abbrev with_lease {ℓ} : {A : Type ℓ} → A → (LeaseOffer → A) → NodeListing → A
with_lease otherwise f node = elim node.leases [ none ↦ otherwise | some offer ↦ f offer ]

unfoldable pub to_offer : NodeListing → Offer
unfolding in_seconds
to_offer node = record {
  node_id = node.node_id;
  node_url = node.public_url;
  gpu = has_gpu node;
  gpu_model = node.gpu.model;
  price_tinybars_per_second = price_of node;
  chunk_seconds = with_lease none (λ o. o.chunk_seconds) node;
  min_seconds = with_lease none (λ o. some (in_seconds o.min_minutes)) node;
  max_seconds = with_lease none (λ o. some (in_seconds o.max_minutes)) node;
  ssh = with_lease false (λ o. o.ssh) node;
  jupyter = with_lease false (λ o. o.jupyter) node;
}

-- The bound on the price, which throws where it is malformed.
unfoldable pub read_bound : Option Text → Result (Option ℤ)
read_bound none = ok none
read_bound (some t) = elim (parse t) [ none ↦ err (syntax_error t) | some z ↦ ok (some z) ]

unfoldable pub select_offers : Option Bool → Option ℤ → List NodeListing → Result (List NodeListing)
select_offers require_gpu most nodes =
    filter_price most (keep (gpu_fits require_gpu) (keep is_metered nodes))

unfoldable pub search_nodes :
    Option Bool → Result (Option ℤ) → Result (List NodeListing) → Result (List Offer)
search_nodes require_gpu bound (err e) = err e
search_nodes require_gpu (err e) (ok nodes) = err e
search_nodes require_gpu (ok most) (ok nodes) = elim (select_offers require_gpu most nodes) [
  | err e ↦ err e
  | ok kept ↦ ok (map to_offer kept)
]

-- The handler of `search_compute_nodes`.
unfoldable pub search_compute_nodes :
    (Text → Option Listing) → Text → Option Bool → Option Text → Result (List Offer)
unfolding search_nodes
search_compute_nodes fetch registry_url require_gpu max_price =
    search_nodes require_gpu (read_bound max_price) (list_online_nodes fetch registry_url)
