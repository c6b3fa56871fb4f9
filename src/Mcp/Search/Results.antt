-- ===== src/Mcp/Search/Results.antt =====
-- What a search finds.
use mathlib.Core.List.{Memᴰ}
use mathlib.Core.Path.{subst}
use mach.Base.{
  Mem-cases, Mem-keep, keep-Mem, ◌≡◌, ◌↔◌, refl, inl, inr, Bool, true, false, Option, none, some,
  List, [], ◌∷◌, arith, if◌then◌else◌, Option-cases, Bool-cases, keep, ◌∙◌, sym, ap,
}
use mach.Base.Int.{ℤ, ◌≤ℤ◌, leb_ℤ}
use mach.Js.Text.{Text}
use mach.Js.BigInt.{parse}
use mach.Types.Node.{LeaseOffer, NodeListing, PaymentMode}
use mach.Mcp.World.{Result, Result-cases, ok}
use mach.Mcp.Search.{is_metered, gpu_fits, price_fits, filter_price, select_offers}

-- The node's terms cost at most the bound, where one is given.
abbrev pub IsCheap : Option ℤ → LeaseOffer → Type 0
IsCheap none offer = Unit
IsCheap (some most) offer =
    (price : Text) × (amount : ℤ) × (offer.price_tinybars_per_second ≡ some price)
    × (parse price ≡ some amount)
    × (amount ≤ℤ most)

abbrev pub GivesGpu : Option Bool → LeaseOffer → Type 0
GivesGpu (some true) offer = offer.gpu ≡ true
GivesGpu _ offer = Unit

-- The node sells sessions, on a GPU where one is asked for, at a price within the bound.
abbrev pub IsOffered : Option Bool → Option ℤ → NodeListing → Type 0
IsOffered require_gpu most node =
    (offer : LeaseOffer) × (node.leases ≡ some offer)
    × (offer.payment_mode ≡ some PaymentMode.session)
    × GivesGpu require_gpu offer
    × IsCheap most offer

filter_price-step :
    (most : Option ℤ) (node : NodeListing) (nodes kept : List NodeListing)
    → filter_price most (node ∷ nodes) ≡ ok kept
    → (fits : Bool) × (rest : List NodeListing) × (price_fits most node ≡ ok fits)
      × (filter_price most nodes ≡ ok rest)
      × (kept ≡ (if fits then node ∷ rest else rest))
unfolding filter_price
filter_price-step most node nodes kept e = elim (Result-cases (price_fits most node)) [
  | inr (x, q) ↦ absurd (ground (arith, q))
  | inl (fits, q) ↦ elim (Result-cases (filter_price most nodes)) [
    | inr (x, q') ↦ absurd (ground (arith, q, q'))
    | inl (rest, q') ↦ (fits, rest, q, q', ground (arith, q, q'))
  ]
]

filter_price-Mem :
    (most : Option ℤ) (node : NodeListing) (nodes kept : List NodeListing)
    → filter_price most nodes ≡ ok kept
    → Memᴰ node kept ↔ (Memᴰ node nodes × (price_fits most node ≡ ok true))
unfolding filter_price
filter_price-Mem most node [] kept e =
    let empty : kept ≡ [] = ground (arith, e) in
    (λ m. elim (subst (λ l. Memᴰ node l) empty m) [ ], λ mh. elim mh.0 [ ])
filter_price-Mem most node (n ∷ nodes) kept e =
    let (fits, rest, q, q', same) = filter_price-step most n nodes kept e in
    let ih = filter_price-Mem most node nodes rest q' in
    elim (Bool-cases fits) [
      | inl good ↦
          let all : kept ≡ n ∷ rest = ground (arith, same, good) in
          (
            λ m. elim (Mem-cases (subst (λ l. Memᴰ node l) all m)) [
              | inl e' ↦ (Memᴰ.head e', ap (price_fits most) e' ∙ q ∙ ap ok good)
              | inr m' ↦ let (k, h) = ih.0 m' in (Memᴰ.tail k, h)
            ],
            λ mh. elim (Mem-cases mh.0) [
              | inl e' ↦ subst (λ l. Memᴰ node l) (sym all) (Memᴰ.head e')
              | inr m' ↦ subst (λ l. Memᴰ node l) (sym all) (Memᴰ.tail (ih.1 (m', mh.1)))
            ],
          )
      | inr bad ↦
          let all : kept ≡ rest = ground (arith, same, bad) in
          (
            λ m. let (k, h) = ih.0 (subst (λ l. Memᴰ node l) all m) in (Memᴰ.tail k, h),
            λ mh. elim (Mem-cases mh.0) [
              | inl e' ↦ absurd (
                  let k : price_fits most node ≡ ok false =
                    ap (price_fits most) e' ∙ q ∙ ap ok bad in
                  cc)
              | inr m' ↦ subst (λ l. Memᴰ node l) (sym all) (ih.1 (m', mh.1))
            ],
          )
    ]

metered_iff :
    (node : NodeListing) (offer : LeaseOffer)
    → node.leases ≡ some offer
    → (is_metered node ≡ true) ↔ (offer.payment_mode ≡ some PaymentMode.session)
metered_iff node offer e = elim (Option-cases offer.payment_mode) [
  | inl q ↦ rw e (λ h. ground (arith, q), λ h. cc)
  | inr (PaymentMode.direct, q) ↦ rw e (λ h. ground (arith, q), λ h. cc)
  | inr (PaymentMode.session, q) ↦ rw e (λ h. q, λ h. ground (arith, q))
]

gpu_iff :
    (require_gpu : Option Bool) (node : NodeListing) (offer : LeaseOffer)
    → node.leases ≡ some offer
    → (gpu_fits require_gpu node ≡ true) ↔ GivesGpu require_gpu offer
gpu_iff (some true) node offer e = rw e (λ h. h, λ h. h)
gpu_iff (some false) node offer e = (λ h. tt, λ h. refl)
gpu_iff none node offer e = (λ h. tt, λ h. refl)

fits_bound :
    (price : Text) (amount most : ℤ)
    → parse price ≡ some amount
    → (t : Text) × (z : ℤ) × (some price ≡ some t) × (parse t ≡ some z) × (z ≤ℤ most)
    → Result.ok (leb_ℤ amount most) ≡ ok true
fits_bound price amount most r (t, z, same, parsed, le) =
    let t_is : price ≡ t = cc in
    let z_is : amount ≡ z = let p : parse price ≡ parse t = ap parse t_is in cc in
    ground (arith, z_is, le)

price_iff :
    (most : Option ℤ) (node : NodeListing) (offer : LeaseOffer)
    → node.leases ≡ some offer
    → (price_fits most node ≡ ok true) ↔ IsCheap most offer
unfolding price_fits
price_iff none node offer e = (λ h. tt, λ h. refl)
price_iff (some most) node offer e = elim (Option-cases offer.price_tinybars_per_second) [
  | inl q ↦ rw (e, q, price_fits) (λ h. cc, λ h. cc)
  | inr (price, q) ↦ elim (Option-cases (parse price)) [
    | inl r ↦ rw (e, q, r, price_fits) (λ h. cc, λ h. cc)
    | inr (amount, r) ↦
        rw (e, q, r, price_fits)
          (λ h. (price, amount, refl, r, ground arith), λ h. fits_bound price amount most r h)
  ]
]

offered :
    (require_gpu : Option Bool) (most : Option ℤ) (node : NodeListing)
    → is_metered node ≡ true
    → gpu_fits require_gpu node ≡ true
    → price_fits most node ≡ ok true
    → IsOffered require_gpu most node
offered require_gpu most node sells gpu cheap = elim (Option-cases node.leases) [
  | inl q ↦ absurd (ground (arith, q))
  | inr (offer, q) ↦ (
    offer,
    q,
    (metered_iff node offer q).0 sells,
    (gpu_iff require_gpu node offer q).0 gpu,
    (price_iff most node offer q).0 cheap,
  )
]

-- A search that succeeds finds exactly the nodes of the list that sell metered sessions, on a GPU
-- where one is asked for, at a price within the bound.
pub select_offers_iff :
    (require_gpu : Option Bool) (most : Option ℤ) (nodes kept : List NodeListing)
    (node : NodeListing)
    → select_offers require_gpu most nodes ≡ ok kept
    → Memᴰ node kept ↔ (Memᴰ node nodes × IsOffered require_gpu most node)
unfolding select_offers
select_offers_iff require_gpu most nodes kept node e =
    let metered = keep is_metered nodes in
    let priced = filter_price-Mem most node (keep (gpu_fits require_gpu) metered) kept e in
    (
      λ m.
          let (m1, cheap) = priced.0 m in
          let (m2, gpu) = Mem-keep (gpu_fits require_gpu) node metered m1 in
          let (m3, sells) = Mem-keep is_metered node nodes m2 in
          (m3, offered require_gpu most node sells gpu cheap),
      λ mo.
          let (offer, has, mode, gpu, cheap) = mo.1 in
          let sells = (metered_iff node offer has).1 mode in
          let fits = (gpu_iff require_gpu node offer has).1 gpu in
          priced.1 (
            keep-Mem (gpu_fits require_gpu) node metered (keep-Mem is_metered node nodes mo.0 sells)
                fits,
            (price_iff most node offer has).1 cheap,
          ),
    )
