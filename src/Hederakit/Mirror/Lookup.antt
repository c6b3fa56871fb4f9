-- ===== src/Hederakit/Mirror/Lookup.antt =====
-- What a lookup tells of an account.
use mach.Base.{
  ℕ, ◌≤◌, ◌≡◌, ◌≢◌, ◌↔◌, ◌⊎◌, Option, none, some, [], ◌∷◌, ◌++◌, arith, Bool-cases, Option-cases,
  inl, inr, ◌==◌,
}
use mach.Js.Text.{Text}
use mach.Js.Text.Laws.{eq_iff}
use mach.Hederakit.Mirror.{
  MirrorAccountResponse, Response, answered, push_unless_slash, drop_end_slashes, first_of,
  mirror_url, to_account, read_response,
}

-- The node has no such account, or an answer without one.
abbrev pub IsUnknown : Response → Type 0
IsUnknown r =
    (r.status ≡ 404)
    ⊎ ((200 ≤ r.status)
        × (r.status ≤ 299)
        × ((body : MirrorAccountResponse) × (r.body ≡ some body) × (body.account ≡ [])))

-- A lookup answers 'no such account' exactly if the mirror node says 404, or answers well and
-- names no account.
pub read_response-none : (r : Response) → (read_response r ≡ answered none) ↔ IsUnknown r
unfolding read_response to_account
read_response-none r = (forth, back)
  where
    forth : read_response r ≡ answered none → IsUnknown r
    forth h = elim (Bool-cases (r.status == 404)) [
      | inl missing ↦ inl (ground (arith, missing))
      | inr other ↦ elim (Option-cases r.body) [
        | inl broken ↦ absurd (ground (arith, other, broken))
        | inr (body, b) ↦ inr (
          ground (arith, other, b),
          ground (arith, other, b),
          (body, b, ground (arith, other, b, eq_iff body.account [])),
        )
      ]
    ]

    back : IsUnknown r → read_response r ≡ answered none
    back (inl missing) = ground (arith, missing)
    back (inr (low, high, (body, b, blank))) =
        ground (arith, low, high, b, blank, eq_iff body.account [])

longer : (s : Text) → [] ≢ s ++ (b'/' ∷ [])
longer [] h = cc
longer (a ∷ s) h = cc

push_bare :
    (c : ℕ) (z : Text)
    → ((s : Text) → z ≢ s ++ (b'/' ∷ []))
    → (s : Text) → push_unless_slash c z ≢ s ++ (b'/' ∷ [])
push_bare c [] bare [] h = ground arith
push_bare c [] bare (a ∷ s) h = elim (Bool-cases (c == b'/')) [
  | inl slash ↦ ground (arith, slash)
  | inr other ↦ longer s (ground (arith, other))
]
push_bare c (d ∷ z) bare [] h = ground arith
push_bare c (d ∷ z) bare (a ∷ s) h = bare s (ground arith)

drop_end_slashes_bare : (t s : Text) → drop_end_slashes t ≢ s ++ (b'/' ∷ [])
unfolding drop_end_slashes
drop_end_slashes_bare [] s = longer s
drop_end_slashes_bare (c ∷ t) s = push_bare c (drop_end_slashes t) (drop_end_slashes_bare t) s

-- The base URL of a mirror node never ends in a slash.
pub mirror_url_bare :
    (override env : Option Text) (s : Text) → mirror_url override env ≢ s ++ (b'/' ∷ [])
unfolding mirror_url
mirror_url_bare override env s = drop_end_slashes_bare (first_of override env) s
