-- ===== src/Js/Text/Laws.antt =====
-- Laws of the string methods.
use mach.Base.{ℕ, ◌≡◌, ◌≢◌, ◌↔◌, refl, true, false, [], ◌∷◌, ◌++◌, arith, All, Bool-cases, inl, inr}
use mach.Js.Text.{Text, ◌===◌, starts_with, is_space, trim_start, trim_end, trim}

pub eq_sound : (s t : Text) → (s === t) ≡ true → s ≡ t
unfolding ◌===◌
eq_sound [] [] h = refl
eq_sound [] (b ∷ t) h = cc
eq_sound (a ∷ s) [] h = cc
eq_sound (a ∷ s) (b ∷ t) h = ground (arith, eq_sound s t)

pub eq_refl : (s : Text) → (s === s) ≡ true
unfolding ◌===◌
eq_refl [] = refl
eq_refl (a ∷ s) = ground (arith, eq_refl s)

-- `===` decides equality of strings.
pub eq_iff : (s t : Text) → ((s === t) ≡ true) ↔ (s ≡ t)
eq_iff s t = (eq_sound s t, λ e. rw e (eq_refl t))

pub eq_ne : (s t : Text) → s ≢ t → (s === t) ≡ false
eq_ne s t h = elim (Bool-cases (s === t)) [ inl e ↦ absurd (h (eq_sound s t e)) | inr e ↦ e ]

pub starts_with-append : (s t : Text) → starts_with s (s ++ t) ≡ true
unfolding starts_with
starts_with-append [] t = refl
starts_with-append (a ∷ s) t = ground (arith, starts_with-append s t)

abbrev pub NotSpace : ℕ → Type 0
NotSpace c = is_space c ≡ false

trim_start_self : (s : Text) → All NotSpace s → trim_start s ≡ s
unfolding trim_start
trim_start_self [] h = refl
trim_start_self (c ∷ s) h = rw h.0

trim_end_self : (s : Text) → All NotSpace s → trim_end s ≡ s
unfolding trim_end
trim_end_self [] h = refl
trim_end_self (c ∷ []) h = rw h.0
trim_end_self (c ∷ d ∷ s) h = rw (trim_end_self (d ∷ s) h.1)

-- A text with no white space is its own trim.
pub trim_self : (s : Text) → All NotSpace s → trim s ≡ s
unfolding trim
trim_self s h = rw (trim_start_self s h) (trim_end_self s h)
