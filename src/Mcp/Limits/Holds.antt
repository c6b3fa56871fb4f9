-- ===== src/Mcp/Limits/Holds.antt =====
-- The map of held payments.
use mach.Base.{ℕ, ◌≤◌, ◌<◌, ◌≡◌, refl, Bool, not, none, some, List, [], ◌∷◌, arith, ltb, keep, All}
use mach.Js.Text.{Text}
use mach.Js.Text.Laws.{eq_iff, eq_refl}
use mach.Mcp.World.{ConfirmationHold, World, ok, err, no_hold}
use mach.Mcp.Limits.{sweep_expired, find_hold, set_hold, delete_hold, take_confirmed_action}

pub find_hold-set_hold :
    (h : ConfirmationHold) (hs : List ConfirmationHold) → find_hold h.id (set_hold h hs) ≡ some h
unfolding find_hold set_hold
find_hold-set_hold h [] = rw (eq_refl h.id)
find_hold-set_hold h (x ∷ hs) = ground (arith, eq_refl h.id, find_hold-set_hold h hs)

-- What is not there is not there after entries are dropped.
find_hold-keep-none :
    (p : ConfirmationHold → Bool) (id : Text) (hs : List ConfirmationHold)
    → find_hold id hs ≡ none
    → find_hold id (keep p hs) ≡ none
unfolding find_hold
find_hold-keep-none p id [] h = refl
find_hold-keep-none p id (x ∷ hs) h = ground (arith, find_hold-keep-none p id hs)

find_hold-delete_hold :
    (id : Text) (hs : List ConfirmationHold) → find_hold id (delete_hold id hs) ≡ none
unfolding find_hold delete_hold
find_hold-delete_hold id [] = refl
find_hold-delete_hold id (x ∷ hs) = ground (arith, find_hold-delete_hold id hs)

-- After an id was asked for, it is not in the map.
pub take-find_none :
    (id : Text) (w : World) → find_hold id (take_confirmed_action id w).1.holds ≡ none
unfolding take_confirmed_action
take-find_none id w = ground (arith, find_hold-delete_hold id (sweep_expired w).holds)

-- An id that is not in the map is refused.
pub take_missing :
    (id : Text) (w : World)
    → find_hold id w.holds ≡ none
    → take_confirmed_action id w ≡ (err (no_hold id), sweep_expired w)
unfolding take_confirmed_action sweep_expired
take_missing id w h =
    rw (find_hold-keep-none (λ x. not (ltb x.expires_at w.now)) id w.holds h, take_confirmed_action)

-- The holds with this id have expired.
abbrev pub HasExpired : Text → World → Type 0
HasExpired id w = All (λ h. h.id ≡ id → h.expires_at < w.now) w.holds

find_hold-expired :
    (id : Text) (now : ℕ) (hs : List ConfirmationHold)
    → All (λ h. h.id ≡ id → h.expires_at < now) hs
    → find_hold id (keep (λ h. not (ltb h.expires_at now)) hs) ≡ none
unfolding find_hold
find_hold-expired id now [] h = refl
find_hold-expired id now (x ∷ hs) h = ground (arith, eq_iff x.id id, find_hold-expired id now hs)

-- So is one that has expired.
pub take_expired :
    (id : Text) (w : World)
    → HasExpired id w
    → take_confirmed_action id w ≡ (err (no_hold id), sweep_expired w)
unfolding take_confirmed_action sweep_expired
take_expired id w h = rw (find_hold-expired id w.now w.holds h, take_confirmed_action)

-- A hold that has not expired is found after the sweep.
find_hold-live :
    (id : Text) (now : ℕ) (hs : List ConfirmationHold) (h : ConfirmationHold)
    → find_hold id hs ≡ some h
    → now ≤ h.expires_at
    → find_hold id (keep (λ x. not (ltb x.expires_at now)) hs) ≡ some h
unfolding find_hold
find_hold-live id now [] h e live = cc
find_hold-live id now (x ∷ hs) h e live = ground (arith, find_hold-live id now hs h)

-- The world after a hold was taken: the expired holds and those of its id are gone.
abbrev pub taken : Text → World → World
taken id w = record w { holds = delete_hold id (keep (λ x. not (ltb x.expires_at w.now)) w.holds) }

pub take_live :
    (id : Text) (w : World) (h : ConfirmationHold)
    → find_hold id w.holds ≡ some h
    → w.now ≤ h.expires_at
    → take_confirmed_action id w ≡ (ok h, taken id w)
unfolding take_confirmed_action sweep_expired
take_live id w h e live = rw (find_hold-live id w.now w.holds h e live, take_confirmed_action)
