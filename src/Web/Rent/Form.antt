-- ===== src/Web/Rent/Form.antt =====
-- web/components/rent/rent-flow.tsx, and the form of session-flow.tsx: whether a node's time is for sale
-- on its page, and what is shown of the purchase, less the layout and the lines of explanation
-- that are the same for every purchase.
use mach.Base.{
  ℕ, ◌*◌, ◌≡◌, ◌∙◌, refl, sym, ap, inl, inr, Bool-cases, ◌↔◌, arith, Bool, true, false, not, Option,
  none, some, List, [], ◌∷◌, ◌++◌, if◌then◌else◌, ◌==◌,
}
use mach.Base.Int.{ℤ, pos, ◌*ℤ◌}
use mach.Js.Text.{Text, text, ◌===◌}
use mach.Js.BigInt.{print, print_nat}
use mach.Types.Node.{NodeListing, LeaseOffer, PaymentMode}
use mach.Web.Amounts.{hbar, hbar_short}
use mach.Web.Rent.Terms.{
  cost, chunk_seconds, first_payment_seconds, payments, picker_min_minutes, picker_max_minutes,
  has_choice, presets, format_minutes,
}

pub data Notice : Type 0 where
  not_selling offline older_build : Notice

pub data Shown : Type 0 where
  notice : Notice → Shown
  session_flow : LeaseOffer → Shown

abbrev is_session : Option PaymentMode → Bool
is_session (some PaymentMode.session) = true
is_session _ = false

unfoldable pub rent_flow : NodeListing → Shown
rent_flow node = elim node.leases [
  | none ↦ notice not_selling
  | some offer ↦
      if not node.online
      then notice offline
      else if not (is_session offer.payment_mode)
      then notice older_build
      else session_flow offer
]

pub data Part : Type 0 where
  picker : (minutes min max : ℕ) → (presets : List ℕ) → Part
  fixed_length : (minutes : Text) → Part
  price : (label value title : Text) → Part
  remark : Text → Part
  require_gpu : (checked : Bool) → Part
  link : (href : Text) → Part
  start_button : (label : Text) → (disabled : Bool) → Part
  failure : (heading message : Text) → Part

module _ (offer : LeaseOffer) (minutes : ℕ) where
  unfoldable pub length_parts : List Part
  unfolding has_choice picker_min_minutes picker_max_minutes presets print_nat
  length_parts =
      if has_choice offer
      then picker minutes (picker_min_minutes offer) (picker_max_minutes offer)
          (presets (picker_min_minutes offer) (picker_max_minutes offer))
        ∷ []
      else fixed_length (
          text "This node sells sessions of exactly "
          ++ (print_nat (picker_min_minutes offer) ++ text " minutes."))
        ∷ []

  abbrev is_one : ℤ → Bool
  is_one (pos n) = n == 1
  is_one _ = false

  abbrev chunk_or_zero : Option ℕ → ℕ
  chunk_or_zero none = 0
  chunk_or_zero (some n) = n

  -- The split of the price into payments, in a word and in a sentence.
  unfoldable pub payment_words : ℤ → Option ℤ → Text
  unfolding hbar_short print first_payment_seconds ◌*ℤ◌
  payment_words per_second none = text "paid on demand"
  payment_words per_second (some n) =
      if is_one n
      then text "one payment"
      else print n
        ++ (text " payments of up to "
            ++ (hbar_short 4 (print (cost per_second (first_payment_seconds offer minutes)))
                ++ text " HBAR"))

  unfoldable pub payment_sentence : Option ℤ → Text
  unfolding print print_nat format_minutes first_payment_seconds chunk_seconds
  payment_sentence none =
      text "This node has not published how it splits payments, "
      ++ text "so it may ask for the whole session at once. "
  payment_sentence (some n) =
      if is_one n
      then text "One payment covers the whole session. "
      else text "Paid in "
        ++ (print n
            ++ (text " parts: "
                ++ (format_minutes (first_payment_seconds offer minutes)
                    ++ (text
                          " now, then the rest automatically as each runs low. Your session is still the full "
                        ++ (print_nat minutes
                            ++ (text " minutes — "
                                ++ (format_minutes (chunk_or_zero (chunk_seconds offer))
                                    ++ (text " is this node's cap on how far ahead of the compute "
                                        ++ text "it is ever holding your money. "))))))))

  unfoldable pub price_parts : ℤ → List Part
  unfolding hbar hbar_short print print_nat payments payment_words payment_sentence ◌*ℤ◌
  price_parts per_second =
      let total = print (cost per_second (minutes * 60)) in
      price (print_nat minutes ++ text "-minute session") (hbar_short 4 total ++ text " HBAR")
        (hbar total ++ text " HBAR")
      ∷ remark (
          hbar_short 6 (print per_second)
          ++ (text " HBAR/s · " ++ payment_words per_second (payments offer minutes)))
      ∷ remark (payment_sentence (payments offer minutes))
      ∷ []

abbrev no_topic : Part
no_topic = remark (
    text "This node reports no audit topic. Nothing but its word says what it owes you if you "
    ++ text "stop early — consider another node if that matters to you.")

abbrev topic_parts : Option Text → List Part
topic_parts none = no_topic ∷ []
topic_parts (some topic) =
    if topic === []
    then no_topic ∷ []
    else link (text "https://hashscan.io/testnet/topic/" ++ topic) ∷ []

abbrev gpu_parts : Bool → Bool → List Part
gpu_parts gpu checked =
    if gpu
    then require_gpu checked ∷ []
    else remark (
        text "This node sells CPU time. A session container here has no usable GPU, so require_gpu "
        ++ text "would be refused before you were asked to pay.")
      ∷ []

-- The button while a wallet is connected: it tells what the page is busy with.
abbrev start_parts : Bool → Option Text → ℕ → List Part
start_parts false busy minutes = []
start_parts true none minutes =
    start_button (text "Start a " ++ (print_nat minutes ++ text "-minute session")) false ∷ []
start_parts true (some doing) minutes = start_button doing true ∷ []

abbrev error_parts : Option Text → List Part
error_parts none = []
error_parts (some message) = failure (text "Nothing was charged") message ∷ []

unfoldable pub form :
    NodeListing
    → LeaseOffer
    → (per_second : ℤ) → (minutes : ℕ) → (gpu wallet : Bool) → (busy error : Option Text)
    → List Part
unfolding length_parts price_parts print_nat
form node offer per_second minutes gpu wallet busy error =
    length_parts offer minutes
    ++ (price_parts offer minutes per_second
        ++ (gpu_parts offer.gpu gpu
            ++ (topic_parts node.audit_topic
                ++ (start_parts wallet busy minutes ++ error_parts error))))

of_session : (m : Option PaymentMode) → is_session m ≡ true → m ≡ some PaymentMode.session
of_session none h = absurd (ground (arith, h))
of_session (some PaymentMode.session) h = refl
of_session (some PaymentMode.direct) h = absurd (ground (arith, h))

-- The page sells a session exactly of a node that is online and has metered terms.
rent_flow_iff :
    (node : NodeListing) (offer : LeaseOffer)
    → (rent_flow node ≡ session_flow offer) ↔ (
        (node.leases ≡ some offer)
        × (node.online ≡ true)
        × (offer.payment_mode ≡ some PaymentMode.session))
unfolding rent_flow
rent_flow_iff node offer = (there node.leases node.online refl refl, back)
  where
    there :
        (o : Option LeaseOffer) (b : Bool)
        → node.leases ≡ o
        → node.online ≡ b
        → rent_flow node ≡ session_flow offer
        → (node.leases ≡ some offer)
          × (node.online ≡ true)
          × (offer.payment_mode ≡ some PaymentMode.session)
    there none b e f h =
        let is : rent_flow node ≡ notice not_selling = simp (e, rent_flow) in
        let shown : notice not_selling ≡ session_flow offer = sym is ∙ h in
        absurd (ground (arith, shown))
    there (some o) false e f h =
        let is : rent_flow node ≡ notice offline = simp (e, f, rent_flow) in
        let shown : notice offline ≡ session_flow offer = sym is ∙ h in
        absurd (ground (arith, shown))
    there (some o) true e f h = elim (Bool-cases (is_session o.payment_mode)) [
      | inl y ↦
          let is : rent_flow node ≡ session_flow o = simp (e, f, y, rent_flow) in
          let shown : session_flow o ≡ session_flow offer = sym is ∙ h in
          let same : o ≡ offer = ground (arith, shown) in
          (e ∙ ap some same, f, sym (ap (λ a. a.payment_mode) same) ∙ of_session o.payment_mode y)
      | inr n ↦
          let is : rent_flow node ≡ notice older_build = simp (e, f, n, rent_flow) in
          let shown : notice older_build ≡ session_flow offer = sym is ∙ h in
          absurd (ground (arith, shown))
    ]

    back :
        (node.leases ≡ some offer)
          × (node.online ≡ true)
          × (offer.payment_mode ≡ some PaymentMode.session)
        → rent_flow node ≡ session_flow offer
    back (e, f, g) = simp (e, f, g, rent_flow)
