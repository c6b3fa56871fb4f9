-- ===== src/Registry/Validate/Bounds.antt =====
-- What a heartbeat that passes the schema is known to hold.
use mach.Base.{◌≤◌, ◌≡◌, ◌⊎◌, inl, inr, Bool, true, Option-cases, Option, none, some, arith, length}
use mach.Base.Int.{ℤ, pos, ◌≤ℤ◌}
use mach.Js.Text.{Text, text}
use mach.Js.Text.Laws.{eq_iff}
use mach.Types.Node.{LeaseOffer}
use mach.Registry.Patterns.{is_node_id}
use mach.Registry.Patterns.Grammar.{IsHederaId, is_hedera_id_iff}
use mach.Registry.Validate.{
  Heartbeat, optional, http_url, heartbeat_schema, leases_schema, positive_to,
}

-- The URL is absolute, with one of the two schemes of the web, and bounded.
abbrev pub IsWebUrl : (Text → Option Text) → Text → Type 0
IsWebUrl protocol_of url =
    (length url ≤ 500)
    × ((protocol_of url ≡ some (text "http:")) ⊎ (protocol_of url ≡ some (text "https:")))

http_url_sound :
    (protocol_of : Text → Option Text) (url : Text)
    → http_url protocol_of url ≡ true
    → IsWebUrl protocol_of url
unfolding http_url
http_url_sound protocol_of url h = elim (Option-cases (protocol_of url)) [
  | inl e ↦ ground arith
  | inr (p, e) ↦ rw e (ground (arith, eq_iff p (text "http:"), eq_iff p (text "https:")))
]

-- Minutes and chunks are positive and at most a week, a year and a day.
pub record HasBoundedTerms (offer : LeaseOffer) : Type 0 where
  pub min_minutes : (pos 1 ≤ℤ offer.min_minutes) × (offer.min_minutes ≤ℤ pos 10080)
  pub max_minutes : (pos 1 ≤ℤ offer.max_minutes) × (offer.max_minutes ≤ℤ pos 10080)
  pub max_total_minutes :
      (pos 1 ≤ℤ offer.max_total_minutes) × (offer.max_total_minutes ≤ℤ pos 525600)
  pub egress_allowlist : length offer.egress_allowlist ≤ 256
  pub chunk_seconds : (n : ℤ) → offer.chunk_seconds ≡ some n → (pos 1 ≤ℤ n) × (n ≤ℤ pos 86400)

leases_schema-HasBoundedTerms :
    (offer : LeaseOffer) → leases_schema offer ≡ true → HasBoundedTerms offer
unfolding leases_schema positive_to
leases_schema-HasBoundedTerms offer h = record {
  min_minutes = ground arith;
  max_minutes = ground arith;
  max_total_minutes = ground arith;
  egress_allowlist = ground arith;
  chunk_seconds = λ n e. ground arith;
}

abbrev pub Each {ℓ κ} : {A : Type ℓ} → (A → Type κ) → Option A → Type κ
Each P none = Unit
Each P (some a) = P a

Each-optional {ℓ κ} :
    {A : Type ℓ} (P : A → Type κ) (check : A → Bool)
    → ((a : A) → check a ≡ true → P a)
    → (o : Option A) → optional check o ≡ true
    → Each P o
Each-optional P check sound none h = tt
Each-optional P check sound (some a) h = sound a h

-- What a renter reads of a node's terms stays within bounds.
pub record IsSound (protocol_of : Text → Option Text) (beat : Heartbeat) : Type 0 where
  pub node_id : length beat.node_id ≤ 64
  pub public_url : IsWebUrl protocol_of beat.public_url
  pub facilitator_url : IsWebUrl protocol_of beat.facilitator_url
  pub pay_to : IsHederaId beat.pay_to
  pub asset : IsHederaId beat.asset
  pub leases : Each HasBoundedTerms beat.leases

-- A heartbeat that the schema accepts has a short id, web URLs, ids of three numbers and bounded
-- terms.
pub heartbeat_schema-IsSound :
    (protocol_of : Text → Option Text) (beat : Heartbeat)
    → heartbeat_schema protocol_of beat ≡ true
    → IsSound protocol_of beat
unfolding heartbeat_schema is_node_id
heartbeat_schema-IsSound protocol_of beat h = record {
  node_id = ground arith;
  public_url = http_url_sound protocol_of beat.public_url (ground arith);
  facilitator_url = http_url_sound protocol_of beat.facilitator_url (ground arith);
  pay_to = (is_hedera_id_iff beat.pay_to).0 (ground arith);
  asset = (is_hedera_id_iff beat.asset).0 (ground arith);
  leases =
      Each-optional HasBoundedTerms leases_schema leases_schema-HasBoundedTerms beat.leases
        (ground arith);
}
