-- ===== src/Web/Amounts/Exact.antt =====
-- What is shown of an amount is all of it, or says so.
use mach.Base.{
  ℕ, zero, suc, ◌+◌, ◌-◌, ◌≡◌, ◌∙◌, sym, refl, ap, Bool, true, false, not, List, [], ◌∷◌, ◌++◌,
  arith, if◌then◌else◌, length, take, drop, replicate, ◌==◌, Bool-cases, inl, inr, length-append,
}
use mach.Js.Text.{Text, text, ◌===◌, pad_start, drop_end_zeros, push_unless_zeros}
use mach.Js.Text.Laws.{eq_iff}
use mach.Web.Amounts.{cut, dotted, hbar, hbar_short, has_nonzero, drop_front_zeros}

take-drop : {A : Type 0} (n : ℕ) (xs : List A) → take n xs ++ drop n xs ≡ xs
take-drop zero xs = refl
take-drop (suc n) [] = refl
take-drop (suc n) (x ∷ xs) = ap (λ l. x ∷ l) (take-drop n xs)

length-drop : {A : Type 0} (n : ℕ) (xs : List A) → length (drop n xs) ≡ length xs - n
length-drop zero xs = omega arith
length-drop (suc n) [] = omega arith
length-drop (suc n) (x ∷ xs) = omega (arith, length-drop n xs)

length-replicate : {A : Type 0} (n : ℕ) (a : A) → length (replicate n a) ≡ n
length-replicate zero a = refl
length-replicate (suc n) a = ap suc (length-replicate n a)

-- A padded text has eight characters behind the cut.
length-padded :
    (t : Text) → let padded = pad_start 9 b'0' t in length (drop (cut padded) padded) ≡ 8
unfolding pad_start
length-padded t =
    let padded = pad_start 9 b'0' t in
    let zeros = length-replicate {A = ℕ} (9 - length t) b'0' in
    let all = length-append (replicate (9 - length t) b'0') t in
    length-drop (cut padded) padded ∙ omega (arith, zeros, all)

push_lem :
    (c : ℕ) (z t : Text) (k : ℕ)
    → t ≡ z ++ replicate k b'0'
    → length z + k ≡ length t
    → (k' : ℕ) × (c ∷ t ≡ push_unless_zeros c z ++ replicate k' b'0')
      × (length (push_unless_zeros c z) + k' ≡ suc (length t))
push_lem c [] t k e n = elim (Bool-cases (c == b'0')) [
  | inl h ↦ (suc k, ground (arith, e), ground (arith, n))
  | inr h ↦ (k, ground (arith, e), ground (arith, n))
]
push_lem c (d ∷ z) t k e n = (k, ap (λ l. c ∷ l) e, omega (arith, n))

drop_end_zeros-replicate :
    (t : Text)
    → (k : ℕ) × (t ≡ drop_end_zeros t ++ replicate k b'0')
      × (length (drop_end_zeros t) + k ≡ length t)
unfolding drop_end_zeros
drop_end_zeros-replicate [] = (0, refl, refl)
drop_end_zeros-replicate (c ∷ t) =
    let (k, e, n) = drop_end_zeros-replicate t in push_lem c (drop_end_zeros t) t k e n

-- Nothing of an amount is lost in its display: with the zeros that were cut off, the whole and the
-- fraction shown are its padded digits, eight of them behind the point.
pub hbar_exact :
    (t : Text)
    → (whole fraction : Text) × (k : ℕ) × (hbar t ≡ dotted whole fraction)
      × (whole ++ (fraction ++ replicate k b'0') ≡ pad_start 9 b'0' t)
      × (length fraction + k ≡ 8)
unfolding hbar
hbar_exact t =
    let padded = pad_start 9 b'0' t in
    let (k, e, n) = drop_end_zeros-replicate (drop (cut padded) padded) in
    (
      take (cut padded) padded,
      drop_end_zeros (drop (cut padded) padded),
      k,
      refl,
      ap (λ l. take (cut padded) padded ++ l) (sym e) ∙ take-drop (cut padded) padded,
      n ∙ length-padded t,
    )

only_zero :
    (whole fraction bound : Text) (nonzero : Bool)
    → (if not (fraction === [])
        then whole ++ (b'.' ∷ fraction)
        else if not (whole === text "0")
        then whole
        else if nonzero
        then text "<0." ++ bound
        else text "0")
      ≡ text "0"
    → nonzero ≡ false
unfolding text ◌===◌
only_zero whole fraction bound false h = refl
only_zero [] (c ∷ fraction) bound true h = absurd (ground arith)
only_zero (d ∷ []) (c ∷ fraction) bound true h = absurd (ground arith)
only_zero (d ∷ e ∷ whole) (c ∷ fraction) bound true h = absurd (ground arith)
only_zero whole [] bound true h = elim (Bool-cases (whole === (b'0' ∷ []))) [
  | inl zero_shown ↦ absurd (ground (arith, zero_shown))
  | inr other ↦ absurd (ground (arith, other, eq_iff whole (b'0' ∷ [])))
]

-- The short display shows 0 of no amount that has a digit other than 0.
pub hbar_short_zero :
    (decimals : ℕ) (t : Text) → hbar_short decimals t ≡ text "0" → has_nonzero t ≡ false
unfolding hbar_short text
hbar_short_zero decimals t h =
    let padded = pad_start 9 b'0' t in
    only_zero (drop_front_zeros (take (cut padded) padded))
      (drop_end_zeros (take decimals (drop (cut padded) padded)))
      (replicate (decimals - 1) b'0' ++ text "1") (has_nonzero t) h
