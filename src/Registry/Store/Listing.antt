-- ===== src/Registry/Store/Listing.antt =====
-- The order and the contents of a listing.
use mathlib.Core.List.{Perm, Memᴰ}
use mathlib.Core.List.Perm
use mach.Base.{
  Mem-cases, ℕ, ◌≤◌, ◌≡◌, Bool, true, false, not, ◌||◌, [], ◌∷◌, arith, All, Bool-cases, inl, inr,
  keep,
}
use mach.Registry.Store.{NodeRow, Nodes, is_online, before, place, order_by, select_nodes}

-- Every row may stand before all that follow it.
abbrev pub IsOrdered : ℕ → Nodes → Type 0
IsOrdered now [] = Unit
IsOrdered now (r ∷ t) = All (λ s. before now r s ≡ true) t × IsOrdered now t

before_total : (now : ℕ) (a b : NodeRow) → before now a b ≡ false → before now b a ≡ true
unfolding before
before_total now a b h = ground arith

before_trans :
    (now : ℕ) (a b c : NodeRow)
    → before now a b ≡ true
    → before now b c ≡ true
    → before now a c ≡ true
unfolding before
before_trans now a b c h k = ground arith

before-All :
    (now : ℕ) (a b : NodeRow) (t : Nodes)
    → before now a b ≡ true
    → All (λ s. before now b s ≡ true) t
    → All (λ s. before now a s ≡ true) t
before-All now a b [] h k = tt
before-All now a b (c ∷ t) h k = (before_trans now a b c h k.0, before-All now a b t h k.1)

place-All :
    (now : ℕ) (a r : NodeRow) (t : Nodes)
    → before now a r ≡ true
    → All (λ s. before now a s ≡ true) t
    → All (λ s. before now a s ≡ true) (place now r t)
unfolding place
place-All now a r [] h k = (h, tt)
place-All now a r (s ∷ t) h k = elim (Bool-cases (before now r s)) [
  | inl e ↦ rw e (h, k)
  | inr e ↦ rw e (k.0, place-All now a r t h k.1)
]

place-IsOrdered :
    (now : ℕ) (r : NodeRow) (t : Nodes) → IsOrdered now t → IsOrdered now (place now r t)
unfolding place
place-IsOrdered now r [] h = (tt, tt)
place-IsOrdered now r (s ∷ t) h = elim (Bool-cases (before now r s)) [
  | inl e ↦ rw e ((e, before-All now r s t e h.0), h)
  | inr e ↦ rw e (place-All now s r t (before_total now r s e) h.0, place-IsOrdered now r t h.1)
]

place-perm : (now : ℕ) (r : NodeRow) (t : Nodes) → Perm (place now r t) (r ∷ t)
unfolding place
place-perm now r [] = Perm.refl _
place-perm now r (s ∷ t) = elim (Bool-cases (before now r s)) [
  | inl e ↦ rw e (Perm.refl _)
  | inr e ↦ rw e (Perm.trans (Perm.cons s (place-perm now r t)) (Perm.swap r s t))
]

order_by-IsOrdered : (now : ℕ) (t : Nodes) → IsOrdered now (order_by now t)
unfolding order_by
order_by-IsOrdered now [] = tt
order_by-IsOrdered now (r ∷ t) = place-IsOrdered now r (order_by now t) (order_by-IsOrdered now t)

order_by-perm : (now : ℕ) (t : Nodes) → Perm (order_by now t) t
unfolding order_by
order_by-perm now [] = Perm.refl _
order_by-perm now (r ∷ t) =
    Perm.trans (place-perm now r (order_by now t)) (Perm.cons r (order_by-perm now t))

-- What a reader of the listing relies on: no offline row stands before an online one, and of two
-- rows that are both online or both offline the first was seen no earlier.
abbrev pub Precedes : ℕ → NodeRow → NodeRow → Type 0
Precedes now r s =
    (is_online now s ≡ true → is_online now r ≡ true)
    × (is_online now r ≡ is_online now s → s.last_seen_at ≤ r.last_seen_at)

abbrev pub IsListed : ℕ → Nodes → Type 0
IsListed now [] = Unit
IsListed now (r ∷ t) = All (Precedes now r) t × IsListed now t

before-Precedes : (now : ℕ) (r s : NodeRow) → before now r s ≡ true → Precedes now r s
unfolding before
before-Precedes now r s h = elim (Bool-cases (is_online now r)) [
  | inl y ↦ elim (Bool-cases (is_online now s)) [ inl y' ↦ ground arith | inr n' ↦ ground arith ]
  | inr n ↦ elim (Bool-cases (is_online now s)) [ inl y' ↦ ground arith | inr n' ↦ ground arith ]
]

All-Precedes :
    (now : ℕ) (r : NodeRow) (t : Nodes)
    → All (λ s. before now r s ≡ true) t
    → All (Precedes now r) t
All-Precedes now r [] h = tt
All-Precedes now r (s ∷ t) h = (before-Precedes now r s h.0, All-Precedes now r t h.1)

IsOrdered-IsListed : (now : ℕ) (t : Nodes) → IsOrdered now t → IsListed now t
IsOrdered-IsListed now [] h = tt
IsOrdered-IsListed now (r ∷ t) h = (All-Precedes now r t h.0, IsOrdered-IsListed now t h.1)

-- A listing has exactly the rows of the table that pass the filter, online ones first, and of two
-- that are both online or both offline the more recently seen first.
pub select_nodes_lem :
    (now : ℕ) (only_online : Bool) (t : Nodes)
    → IsListed now (select_nodes now only_online t)
      × Perm (select_nodes now only_online t) (keep (λ r. not only_online || is_online now r) t)
unfolding select_nodes
select_nodes_lem now only_online t =
    (IsOrdered-IsListed now _ (order_by-IsOrdered now _), order_by-perm now _)

Mem-place : (now : ℕ) (a r : NodeRow) (t : Nodes) → Memᴰ a (place now r t) → Memᴰ a (r ∷ t)
unfolding place
Mem-place now a r [] m = m
Mem-place now a r (s ∷ t) m = elim (Bool-cases (before now r s)) [
  | inl first ↦ rw (first, place) at m
  | inr later ↦ elim (Mem-cases (rw (later, place) at m)) [
    | inl e ↦ Memᴰ.tail (Memᴰ.head e)
    | inr n ↦ elim (Mem-cases (Mem-place now a r t n)) [
      | inl e ↦ Memᴰ.head e
      | inr n' ↦ Memᴰ.tail (Memᴰ.tail n')
    ]
  ]
]

-- Sorting adds nothing.
pub Mem-order_by : (now : ℕ) (a : NodeRow) (t : Nodes) → Memᴰ a (order_by now t) → Memᴰ a t
unfolding order_by
Mem-order_by now a [] m = m
Mem-order_by now a (r ∷ t) m = elim (Mem-cases (Mem-place now a r (order_by now t) m)) [
  | inl e ↦ Memᴰ.head e
  | inr n ↦ Memᴰ.tail (Mem-order_by now a t n)
]
