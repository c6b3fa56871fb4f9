-- ===== src/Base/Members.antt =====
-- Membership in lists that are filtered and mapped.
use mathlib.Core.Path.{◌≡◌, ◌∙◌, ap, sym, refl}
use mathlib.Core.Logic.{◌⊎◌, inl, inr}
use mathlib.Core.Bool.{Bool, true}
use mathlib.Core.List.{List, [], ◌∷◌, Memᴰ, map}
use mach.Base.Lists.{keep}
use mach.Base.Tests.{Bool-cases}

pub keep-Mem :
    {A : Type 0} (p : A → Bool) (a : A) (xs : List A) → Memᴰ a xs → p a ≡ true → Memᴰ a (keep p xs)
keep-Mem p a [] m h = elim m [ ]
keep-Mem p a (x ∷ xs) (Memᴰ.head same) h =
    let e : p x ≡ true = sym (ap p same) ∙ h in rw (e, keep) (Memᴰ.head same)
keep-Mem p a (x ∷ xs) (Memᴰ.tail m) h = elim (Bool-cases (p x)) [
  | inl e ↦ rw (e, keep) (Memᴰ.tail (keep-Mem p a xs m h))
  | inr e ↦ rw (e, keep) (keep-Mem p a xs m h)
]

pub Mem-cases : {A : Type 0} {a x : A} {xs : List A} → Memᴰ a (x ∷ xs) → (a ≡ x) ⊎ Memᴰ a xs
Mem-cases (Memᴰ.head same) = inl same
Mem-cases (Memᴰ.tail m) = inr m

pub Mem-keep :
    {A : Type 0} (p : A → Bool) (a : A) (xs : List A)
    → Memᴰ a (keep p xs)
    → Memᴰ a xs × (p a ≡ true)
Mem-keep p a [] m = elim m [ ]
Mem-keep p a (x ∷ xs) m = elim (Bool-cases (p x)) [
  | inl e ↦ elim (Mem-cases (rw (e, keep) at m)) [
    | inl same ↦ (Memᴰ.head same, ap p same ∙ e)
    | inr m' ↦ let (n, h) = Mem-keep p a xs m' in (Memᴰ.tail n, h)
  ]
  | inr e ↦ let (n, h) = Mem-keep p a xs (rw (e, keep) at m) in (Memᴰ.tail n, h)
]

pub Mem-map :
    {A B : Type 0} (f : A → B) (b : B) (xs : List A)
    → Memᴰ b (map f xs)
    → (a : A) × Memᴰ a xs × (b ≡ f a)
Mem-map f b [] m = elim m [ ]
Mem-map f b (x ∷ xs) m = elim (Mem-cases m) [
  | inl same ↦ (x, Memᴰ.head refl, same)
  | inr m' ↦ let (a, n, e) = Mem-map f b xs m' in (a, Memᴰ.tail n, e)
]
