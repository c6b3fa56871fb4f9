-- ===== src/Web/Storage/Keeping.antt =====
-- A session is kept for a day, and for its own node only.
use mach.Base.{
  ℕ, ◌+◌, ◌<◌, ◌≤◌, ◌≡◌, ◌≢◌, ◌∙◌, refl, ap, true, false, none, some, List, [], ◌∷◌, arith, drop,
  ltb, Bool-cases, inl, inr,
}
use mach.Js.Text.{Text, text, ◌===◌}
use mach.Js.Text.Laws.{eq_refl, eq_sound}
use mach.Web.Storage.{
  max_age_ms, StoredSession, Stored, envelope, Item, Browser, key_for, get_item, remove_item,
  set_item, load_stored, load_session, save_session, clear_session,
}

pub get_item-set_item :
    (key : Text) (v : Stored) (items : List Item) → get_item key (set_item key v items) ≡ some v
unfolding get_item set_item
get_item-set_item key v [] = ground (arith, eq_refl key)
get_item-set_item key v (i ∷ items) = ground (arith, eq_refl key, get_item-set_item key v items)

get_item-set_item_other :
    (key other : Text) (v : Stored) (items : List Item)
    → (other === key) ≡ false
    → get_item key (set_item other v items) ≡ get_item key items
unfolding get_item set_item
get_item-set_item_other key other v [] h = ground (arith, h)
get_item-set_item_other key other v (i ∷ items) h = elim (Bool-cases (i.key === other)) [
  | inl same ↦
      let e : (i.key === key) ≡ false = ap (λ k. k === key) (eq_sound i.key other same) ∙ h in
      ground (arith, same, e, h)
  | inr differs ↦ ground (arith, differs, get_item-set_item_other key other v items h)
]

get_item-remove_item :
    (key : Text) (items : List Item) → get_item key (remove_item key items) ≡ none
unfolding get_item remove_item
get_item-remove_item key [] = refl
get_item-remove_item key (i ∷ items) = ground (arith, get_item-remove_item key items)

get_item-remove_item_other :
    (key other : Text) (items : List Item)
    → (other === key) ≡ false
    → get_item key (remove_item other items) ≡ get_item key items
unfolding get_item remove_item
get_item-remove_item_other key other [] h = refl
get_item-remove_item_other key other (i ∷ items) h = elim (Bool-cases (i.key === other)) [
  | inl same ↦
      let e : (i.key === key) ≡ false = ap (λ k. k === key) (eq_sound i.key other same) ∙ h in
      ground (arith, same, e, get_item-remove_item_other key other items h)
  | inr differs ↦ ground (arith, differs, get_item-remove_item_other key other items h)
]

key_for-apart : (a b : Text) → a ≢ b → (key_for a === key_for b) ≡ false
unfolding text
key_for-apart a b ne = elim (Bool-cases (key_for a === key_for b)) [
  | inl same ↦
      let e : key_for a ≡ key_for b = eq_sound (key_for a) (key_for b) same in
      absurd (ne (ap (drop 19) e))
  | inr differs ↦ differs
]

-- A session that could be saved in the browser is loaded again, unchanged, at any time within a
-- day.
pub load-save :
    (now later : ℕ) (node_id : Text) (session : StoredSession) (b : Browser)
    → b.blocked ≡ false
    → b.full ≡ false
    → later ≤ now + max_age_ms
    → (load_session later node_id (save_session now node_id session b)).0 ≡ some session
unfolding load_session save_session load_stored
load-save now later node_id session b open_ room h =
    let got = get_item-set_item (key_for node_id) (envelope now session) b.items in
    rw (open_, room, got, load_stored) (ground arith)

-- A session saved more than a day ago is not loaded, and loading removes it.
pub load_expired :
    (now later : ℕ) (node_id : Text) (session : StoredSession) (b : Browser)
    → b.blocked ≡ false
    → b.full ≡ false
    → now + max_age_ms < later
    → let b' = (load_session later node_id (save_session now node_id session b)).1 in
      ((load_session later node_id (save_session now node_id session b)).0 ≡ none)
      × (get_item (key_for node_id) b'.items ≡ none)
unfolding load_session save_session load_stored
load_expired now later node_id session b open_ room h =
    let got = get_item-set_item (key_for node_id) (envelope now session) b.items in
    let late : ltb (now + max_age_ms) later ≡ true = ground arith in
    rw (open_, room, got, late, load_stored) (refl, get_item-remove_item (key_for node_id) _)

-- Saving or clearing the session of one node leaves the sessions of the others as they are stored.
pub other_nodes :
    (now : ℕ) (node_id other : Text) (session : StoredSession) (b : Browser)
    → other ≢ node_id
    → (get_item (key_for node_id) (save_session now other session b).items
        ≡ get_item (key_for node_id) b.items)
      × (get_item (key_for node_id) (clear_session other b).items
          ≡ get_item (key_for node_id) b.items)
unfolding save_session clear_session
other_nodes now node_id other session b h =
    let apart = key_for-apart other node_id h in
    let saved =
      get_item-set_item_other (key_for node_id) (key_for other) (envelope now session) b.items
        apart in
    let cleared = get_item-remove_item_other (key_for node_id) (key_for other) b.items apart in
    (ground (arith, saved), ground (arith, cleared))
