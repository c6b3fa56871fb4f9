-- ===== src/Web/Rent/Terms/Cover.antt =====
-- What a renter is asked for covers the session that was chosen, and no more than the chunk at once.
use native.Mathlib.Nat.{div-mul-le_self, lt-div-mul-add}
use mathlib.Core.List.{Memᴰ}
use mach.Base.{
  ◌↔◌, [], ◌∷◌, ℕ, zero, suc, ◌+◌, ◌-◌, ◌*◌, ◌/◌, ◌<◌, ◌≤◌, ◌≡◌, refl, some, arith, Option-cases,
  inl, inr, Bool-cases, ltb, ltb→lt,
}
use mach.Base.Int.{pos, pos-*ℤ}
use mach.Js.Text.{Text}
use mach.Js.BigInt.{parse}
use mach.Types.Node.{LeaseOffer}
use mach.Types.X402.{hbar_asset_id}
use mach.Mcp.World.{Requirements}
use mach.Mcp.Payer.Policy.{IsAffordable}
use mach.Client.Payment.{choose}
use mach.Client.Payment.Agreement.{choose_iff}
use mach.Web.Rent.Terms.{
  ceil_div, min_ℕ, chunk_seconds, picker_min_minutes, picker_max_minutes, initial_minutes,
  payment_cap, first_payment_seconds, payments,
}

ceil_div_bounds : (a b k : ℕ) → 0 < b → ceil_div (pos a) b ≡ pos k → (a ≤ k * b) × (k * b < a + b)
unfolding ceil_div
ceil_div_bounds a b k h e =
    let same : (a + (b - 1)) / b ≡ k = ground arith in
    let low = div-mul-le_self (a + (b - 1)) b in
    let high = lt-div-mul-add {a = a + (b - 1)} h in omega (arith, rw same at low, rw same at high)

-- The arithmetic of `covers`, with the bounds of `ceil_div`.
covers_by :
    (seconds chunk k : ℕ)
    → 0 < seconds
    → seconds ≤ k * chunk
    → k * chunk < seconds + chunk
    → (0 < k)
      × (min_ℕ seconds chunk ≤ seconds)
      × (min_ℕ seconds chunk ≤ chunk)
      × (seconds ≤ k * min_ℕ seconds chunk)
      × (k * min_ℕ seconds chunk < seconds + min_ℕ seconds chunk)
unfolding min_ℕ
covers_by seconds chunk zero s low high = absurd (omega arith)
covers_by seconds chunk (suc zero) s low high = ground arith
covers_by seconds chunk (suc (suc k)) s low high = elim (Bool-cases (ltb seconds chunk)) [
  | inl h ↦ let less = ltb→lt seconds chunk h in absurd (grind arith)
  | inr h ↦
      let more : chunk ≤ seconds = ground arith in
      rw (h, min_ℕ) (omega arith, more, omega arith, low, high)
]

covers :
    (seconds chunk k : ℕ)
    → 0 < seconds
    → 0 < chunk
    → ceil_div (pos seconds) chunk ≡ pos k
    → (0 < k)
      × (min_ℕ seconds chunk ≤ seconds)
      × (min_ℕ seconds chunk ≤ chunk)
      × (seconds ≤ k * min_ℕ seconds chunk)
      × (k * min_ℕ seconds chunk < seconds + min_ℕ seconds chunk)
covers seconds chunk k s c e =
    let b = ceil_div_bounds seconds chunk k c e in covers_by seconds chunk k s b.0 b.1

chunk_seconds_pos : (offer : LeaseOffer) (chunk : ℕ) → chunk_seconds offer ≡ some chunk → 0 < chunk
unfolding chunk_seconds
chunk_seconds_pos offer chunk e = ground arith

-- The payments announced for a session of some minutes cover it, each as large as the first, and
-- one fewer would not; the first one buys no more than the session.
pub payments_cover :
    (offer : LeaseOffer) (minutes k : ℕ)
    → 0 < minutes
    → payments offer minutes ≡ some (pos k)
    → let first = first_payment_seconds offer minutes in
      (0 < k)
      × (first ≤ minutes * 60)
      × (minutes * 60 ≤ k * first)
      × (k * first < minutes * 60 + first)
unfolding payments first_payment_seconds chunk_seconds
payments_cover offer minutes k h e = elim (Option-cases (chunk_seconds offer)) [
  | inl n ↦ cc (rw (n, payments) at e)
  | inr (chunk, c) ↦
      let count : ceil_div (pos (minutes * 60)) chunk ≡ pos k =
        ground (arith, rw (c, payments) at e) in
      let b = covers (minutes * 60) chunk k (omega arith) (chunk_seconds_pos offer chunk c) count in
      rw (c, first_payment_seconds) (b.0, b.1, b.3, b.4)
]

-- The minutes that are chosen at first lie within the picker's bounds.
pub initial_minutes_in :
    (offer : LeaseOffer)
    → (picker_min_minutes offer ≤ initial_minutes offer)
      × (initial_minutes offer ≤ picker_max_minutes offer)
unfolding initial_minutes
initial_minutes_in offer = ground arith

pub payment_cap-pos :
    (offer : LeaseOffer) (price minutes : ℕ)
    → payment_cap offer (pos price) minutes ≡ pos (price * first_payment_seconds offer minutes * 2)
unfolding payment_cap
payment_cap-pos offer price minutes =
    let first = first_payment_seconds offer minutes in
    rw (pos-*ℤ price first) (pos-*ℤ (price * first) 2)

pub affordable_amount :
    (amount cap : ℕ) (network : Text) (demand : Requirements)
    → parse demand.amount ≡ some (pos amount)
    → IsAffordable network (pos cap) demand
    → amount ≤ cap
affordable_amount amount cap network demand e (n, a, (b, f, h)) =
    let same : b ≡ pos amount = cc in ground arith

-- The spending policy of the page's payer leaves a demand in HBAR on the network it pays on
-- exactly if its amount is at most twice the first payment; what the wallet then refuses to sign
-- is not part of it.
pub payer_covers :
    (offer : LeaseOffer) (price minutes : ℕ) (network : Text) (demand : Requirements) (amount : ℕ)
    → demand.network ≡ network
    → demand.asset ≡ hbar_asset_id
    → parse demand.amount ≡ some (pos amount)
    → Memᴰ demand
        (choose (some network) (some (payment_cap offer (pos price) minutes)) (demand ∷ []))
      ↔ (amount ≤ 2 * (price * first_payment_seconds offer minutes))
payer_covers offer price minutes network demand amount n a e =
    let first = first_payment_seconds offer minutes in
    let cap = payment_cap-pos offer price minutes in
    let chosen =
      choose_iff (some network) (some (payment_cap offer (pos price) minutes)) (demand ∷ [])
        demand in
    (
      λ m.
          let fits : amount ≤ price * first * 2 =
            affordable_amount amount (price * first * 2) network demand e
              (rw cap at (chosen.0 m).1) in
          grind arith,
      λ h. chosen.1 (Memᴰ.head refl, (n, a, (pos amount, e, rw cap (grind arith)))),
    )
