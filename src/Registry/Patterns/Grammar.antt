-- ===== src/Registry/Patterns/Grammar.antt =====
-- What the patterns of validate.ts accept, as grammars.
use mach.Base.{
  ℕ, zero, suc, ◌≤◌, ◌≡◌, ◌≢◌, ◌↔◌, ◌⊎◌, inl, inr, refl, ap, Bool, true, false, [], ◌∷◌, ◌++◌,
  arith, All, Bool-cases,
}
use mach.Js.Text.{Text}
use mach.Registry.Patterns.{is_digit, runs, is_hedera_id}

abbrev pub Digit : ℕ → Type 0
Digit c = (b'0' ≤ c) × (c ≤ b'9')

-- Digits, at least one unless some came before.
abbrev IsRun : Bool → Text → Type 0
IsRun begun t = All Digit t × ((begun ≡ true) ⊎ (t ≢ []))

-- `dots` runs that end in a dot, and a last one.
abbrev Joined : ℕ → Bool → Text → Type 0
Joined zero begun t = IsRun begun t
Joined (suc dots) begun t =
    (a : Text) × (r : Text) × (t ≡ a ++ (b'.' ∷ r)) × IsRun begun a × Joined dots false r

cons-ne-nil : (c : ℕ) (s : Text) → c ∷ s ≢ []
cons-ne-nil c s h = cc

Joined-Digit :
    (dots : ℕ) (begun : Bool) (c : ℕ) (s : Text)
    → Digit c
    → Joined dots true s
    → Joined dots begun (c ∷ s)
Joined-Digit zero begun c s h j = ((h, j.0), inr (cons-ne-nil c s))
Joined-Digit (suc dots) begun c s h (a, r, e, run, rest) =
    (c ∷ a, r, ap (λ t. c ∷ t) e, ((h, run.0), inr (cons-ne-nil c a)), rest)

is_digit-Digit : (c : ℕ) → is_digit c ≡ true → Digit c
unfolding is_digit
is_digit-Digit c h = ground arith

Digit-is_digit : (c : ℕ) → Digit c → is_digit c ≡ true
unfolding is_digit
Digit-is_digit c h = ground arith

runs_sound : (dots : ℕ) (begun : Bool) (t : Text) → runs dots begun t ≡ true → Joined dots begun t
unfolding runs
runs_sound zero begun [] h = (tt, inl (ground arith))
runs_sound (suc dots) begun [] h = absurd (ground arith)
runs_sound zero begun (c ∷ s) h = elim (Bool-cases (is_digit c)) [
  | inl d ↦ Joined-Digit zero begun c s (is_digit-Digit c d) (runs_sound zero true s (ground arith))
  | inr n ↦ absurd (ground arith)
]
runs_sound (suc dots) begun (c ∷ s) h = elim (Bool-cases (is_digit c)) [
  | inl d ↦
      Joined-Digit (suc dots) begun c s (is_digit-Digit c d)
        (runs_sound (suc dots) true s (ground arith))
  | inr n ↦
      let dot : c ≡ b'.' = ground arith in
      ([], s, ap (λ x. x ∷ s) dot, (tt, inl (ground arith)), runs_sound dots false s (ground arith))
]

dot-digit : is_digit b'.' ≡ false
unfolding is_digit
dot-digit = refl

runs_complete :
    (dots : ℕ) (begun : Bool) (t : Text) → Joined dots begun t → runs dots begun t ≡ true
unfolding runs
runs_complete zero begun [] (h, inl b) = rw b
runs_complete zero begun [] (h, inr ne) = absurd (ne refl)
runs_complete zero begun (c ∷ s) (h, _) =
    ground (arith, Digit-is_digit c h.0, runs_complete zero true s (h.1, inl refl))
runs_complete (suc dots) begun [] ([], r, e, _, _) = cc
runs_complete (suc dots) begun [] (x ∷ a, r, e, _, _) = cc
runs_complete (suc dots) begun (c ∷ s) ([], r, e, (_, inl b), j) =
    let same : s ≡ r = cc in ground (arith, dot-digit, runs_complete dots false s (rw same j))
runs_complete (suc dots) begun (c ∷ s) ([], r, e, (_, inr ne), j) = absurd (ne refl)
runs_complete (suc dots) begun (c ∷ s) (x ∷ a, r, e, (h, _), j) =
    let same : s ≡ a ++ (b'.' ∷ r) = cc in
    let head : c ≡ x = cc in
    ground (
      arith,
      Digit-is_digit x h.0,
      runs_complete (suc dots) true s (a, r, same, (h.1, inl refl), j),
    )

-- Three numbers, as in `0.0.1234`.
abbrev pub IsHederaId : Text → Type 0
IsHederaId t =
    (shard : Text) × (realm : Text) × (num : Text) × (t ≡ shard ++ (b'.' ∷ (realm ++ (b'.' ∷ num))))
    × (All Digit shard × (shard ≢ []))
    × (All Digit realm × (realm ≢ []))
    × (All Digit num × (num ≢ []))

begun_run : (t : Text) → IsRun false t → t ≢ []
begun_run t (h, inl b) = cc
begun_run t (h, inr ne) = ne

-- The pattern of a Hedera id accepts exactly three decimal numbers joined by dots.
pub is_hedera_id_iff : (t : Text) → (is_hedera_id t ≡ true) ↔ IsHederaId t
unfolding is_hedera_id
is_hedera_id_iff t = (
  λ h.
      let (a, r, e, run, (b, n, e', run', run'')) = runs_sound 2 false t h in
      (
        a,
        b,
        n,
        rw (← e') e,
        (run.0, begun_run a run),
        (run'.0, begun_run b run'),
        (run''.0, begun_run n run''),
      ),
  λ (a, b, n, e, x, y, z).
      runs_complete 2 false t
        (a, b ++ (b'.' ∷ n), e, (x.0, inr x.1), (b, n, refl, (y.0, inr y.1), (z.0, inr z.1))),
)
