-- ===== src/Registry/Providers/View.antt =====
-- What an autonomous renter can rely on in the view of a provider.
use mach.Base.{◌≡◌, ◌↔◌, Bool, true, false, ◌||◌, Option, none, some, List, [], ◌∷◌, arith}
use mach.Js.Text.{Text, text, ◌===◌}
use mach.Types.Node.{LeaseOffer, NodeListing}
use mach.Registry.Providers.{Status, is_some, to_provider_view}

-- `capabilities.includes(name)`
abbrev pub offers : Text → List Text → Bool
offers name [] = false
offers name (c ∷ cs) = name === c || offers name cs

abbrev pub sold : (LeaseOffer → Bool) → Option LeaseOffer → Bool
sold f none = false
sold f (some offer) = f offer

-- The capabilities of a provider say what the node's own terms say: each word is there exactly if
-- its flag is.
pub capabilities_lem :
    (node : NodeListing)
    → let view = to_provider_view node in
      (offers (text "cuda") view.capabilities ≡ node.gpu.available)
      × (offers (text "ssh") view.capabilities ≡ sold (λ o. o.ssh) node.leases)
      × (offers (text "jupyter") view.capabilities ≡ sold (λ o. o.jupyter) node.leases)
      × (offers (text "refundable") view.capabilities ≡ view.pricing.refundable)
      × (offers (text "hcs-audit") view.capabilities ≡ is_some node.audit_topic)
unfolding to_provider_view text ◌===◌
capabilities_lem node = ground arith

-- A node that is not online is offline whatever it says of itself, and a paused one is told apart
-- from both.
pub status_lem :
    (node : NodeListing)
    → let view = to_provider_view node in
      ((view.status ≡ Status.offline) ↔ (node.online ≡ false))
      × ((view.status ≡ Status.paused) ↔ ((node.online ≡ true) × (node.paused ≡ true)))
      × ((view.status ≡ Status.online) ↔ ((node.online ≡ true) × (node.paused ≡ false)))
unfolding to_provider_view
status_lem node = ground arith
