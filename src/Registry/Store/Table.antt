-- ===== src/Registry/Store/Table.antt =====
-- The SQL statements of the store as updates of a map from ids to rows.
use mach.Base.{
  ℕ, ◌≡◌, refl, ap, Bool, true, false, Option, none, some, [], ◌∷◌, arith, if◌then◌else◌,
  Bool-cases, inl, inr,
}
use mach.Js.Text.{Text, ◌===◌}
use mach.Js.Text.Laws.{eq_iff, eq_sound}
use mach.Registry.Validate.{Heartbeat}
use mach.Registry.Store.{NodeRow, Nodes, find, new_row, on_conflict, upsert, set_withdrawn}

pub find-node_id : (id : Text) (t : Nodes) (r : NodeRow) → find id t ≡ some r → r.node_id ≡ id
unfolding find
find-node_id id [] r e = cc
find-node_id id (s ∷ t) r e = ground (arith, find-node_id id t r, eq_iff s.node_id id)

pub new_row-node_id :
    (now : ℕ) (b : Heartbeat) (incoming : Text) → (new_row now b incoming).node_id ≡ b.node_id
unfolding new_row
new_row-node_id now b incoming = refl

-- What an upsert leaves under its key.
abbrev pub merged : NodeRow → Option NodeRow → NodeRow
merged row none = row
merged row (some old) = on_conflict old row

find-nil : (id : Text) → find id [] ≡ none
unfolding find
find-nil id = refl

on_conflict-node_id : (r row : NodeRow) → (on_conflict r row).node_id ≡ r.node_id
unfolding on_conflict
on_conflict-node_id r row = refl

merged_cases :
    (b : Bool) (row r : NodeRow) (rest : Option NodeRow)
    → (if b then some (on_conflict r row) else rest)
      ≡ (if b then some (merged row (if b then some r else rest)) else (if b then some r else rest))
merged_cases true row r rest = refl
merged_cases false row r rest = refl

other_key :
    (id : Text) (row r : NodeRow) (rest : Option NodeRow)
    → (r.node_id === row.node_id) ≡ false
    → (if r.node_id === id
        then some r
        else (if row.node_id === id then some (merged row rest) else rest))
      ≡ (if row.node_id === id
          then some (merged row (if r.node_id === id then some r else rest))
          else (if r.node_id === id then some r else rest))
other_key id row r rest other =
    ground (arith, eq_iff r.node_id id, eq_iff row.node_id id, eq_iff r.node_id row.node_id)

pub find-upsert :
    (id : Text) (row : NodeRow) (t : Nodes)
    → find id (upsert row t)
      ≡ (if row.node_id === id then some (merged row (find id t)) else find id t)
unfolding find upsert
find-upsert id row [] = refl
find-upsert id row (r ∷ t) = elim (Bool-cases (r.node_id === row.node_id)) [
  | inl same ↦
      rw
        (
          same,
          ap (λ k. k === id) (on_conflict-node_id r row),
          ap (λ k. k === id) (eq_sound r.node_id row.node_id same),
        )
        (merged_cases (row.node_id === id) row r (find id t))
  | inr other ↦ rw (other, find-upsert id row t) (other_key id row r (find id t) other)
]

abbrev pub marked : Option NodeRow → Option NodeRow
marked none = none
marked (some r) = some (record r { withdrawn = true })

pub find-set_withdrawn :
    (id key : Text) (t : Nodes)
    → find id (set_withdrawn key t) ≡ (if key === id then marked (find id t) else find id t)
unfolding find set_withdrawn
find-set_withdrawn id key [] = ground arith
find-set_withdrawn id key (r ∷ t) =
    ground
      (arith, find-set_withdrawn id key t, eq_iff r.node_id key, eq_iff r.node_id id, eq_iff key id)

-- PRIMARY KEY: no id is listed twice.
abbrev pub HasDistinctIds : Nodes → Type 0
HasDistinctIds [] = Unit
HasDistinctIds (r ∷ t) = (find r.node_id t ≡ none) × HasDistinctIds t

pub upsert-HasDistinctIds :
    (row : NodeRow) (t : Nodes) → HasDistinctIds t → HasDistinctIds (upsert row t)
unfolding upsert
upsert-HasDistinctIds row [] h = (find-nil row.node_id, tt)
upsert-HasDistinctIds row (r ∷ t) h = elim (Bool-cases (r.node_id === row.node_id)) [
  | inl same ↦ rw same (rw (on_conflict-node_id r row) h.0, h.1)
  | inr other ↦ rw other (
    ground (
      arith,
      find-upsert r.node_id row t,
      h.0,
      eq_iff r.node_id row.node_id,
      eq_iff row.node_id r.node_id,
    ),
    upsert-HasDistinctIds row t h.1,
  )
]

node_id-marked :
    (b : Bool) (r : NodeRow) → (if b then record r { withdrawn = true } else r).node_id ≡ r.node_id
node_id-marked true r = refl
node_id-marked false r = refl

pub set_withdrawn-HasDistinctIds :
    (id : Text) (t : Nodes) → HasDistinctIds t → HasDistinctIds (set_withdrawn id t)
unfolding set_withdrawn
set_withdrawn-HasDistinctIds id [] h = tt
set_withdrawn-HasDistinctIds id (r ∷ t) h = (
  rw (node_id-marked (r.node_id === id) r) (ground (arith, find-set_withdrawn r.node_id id t, h.0)),
  set_withdrawn-HasDistinctIds id t h.1,
)
