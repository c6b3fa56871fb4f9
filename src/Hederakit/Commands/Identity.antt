-- ===== src/Hederakit/Commands/Identity.antt =====
-- The registration of a node's identity: what it has done when it reports one.
use mach.Base.{
  ◌≡◌, ◌⊎◌, ◌∙◌, refl, sym, ap, true, false, some, List, [], ◌∷◌, ◌++◌, arith, Bool-cases,
  Option-cases, inl, inr,
}
use mach.Base.Int.{ℤ, pos, leb_ℤ}
use mach.Js.Text.{Text, text}
use mach.Js.BigInt.{print}
use mach.Hederakit.Key.{Sdk, Operator}
use mach.Hederakit.Ledger.{
  Transaction, contract_call, agent_id_of, new_agent, update_agent, Fate, threw, receipt, Result,
  ok, err, World, ◌>>=◌, return, Network, execute,
}
use mach.Hederakit.Commands.{GlobalOptions, Line, connect, Ledger, net}
use mach.Hederakit.Commands.{agent, run_identity_register}
use mach.Hederakit.Commands.Steps.{bind_done, connect-submitted}

abbrev ok_or : {A : Type 0} → A → Result A → A
ok_or a (ok b) = b
ok_or a (err e) = a

ok_injective : {A : Type 0} (a b : A) → ok a ≡ ok b → a ≡ b
ok_injective a b h = ap (ok_or a) h

module _ (net : Network) where
  agent_id_of-ok :
      (registry address : Text) (id : ℤ) (w : World)
      → (agent_id_of net registry address w).0 ≡ ok id
      → (net.agent_of w.submitted registry address ≡ some id)
        × ((agent_id_of net registry address w).1 ≡ w)
  unfolding agent_id_of
  agent_id_of-ok registry address id w h =
      elim (Option-cases (net.agent_of w.submitted registry address)) [
        | inl e ↦ absurd (ground (arith, rw (e, agent_id_of) at h))
        | inr (b, e) ↦
            let same : ok b ≡ ok id = rw (e, agent_id_of) at h in
            (e ∙ ap some (ground (arith, same)), rw (e, agent_id_of) refl)
      ]

  -- The one call that a registration has submitted, and the line that it printed.
  abbrev pub Updated :
      (registry domain address : Text) → ℤ → Line → (before after : List Transaction) → Type 0
  Updated registry domain address id line before after =
      (transaction : Text) × (line ≡ agent (print id) address transaction false)
      × (after
          ≡ before
            ++ contract_call registry (text "updateAgent") 400000 (print id ∷ domain ∷ address ∷ [])
              ∷ [])

  abbrev pub Created :
      (registry domain address : Text) → Line → (before after : List Transaction) → Type 0
  Created registry domain address line before after =
      (id : ℤ) × (transaction : Text) × (net.agent_of after registry address ≡ some id)
      × (line ≡ agent (print id) address transaction true)
      × (after
          ≡ before ++ contract_call registry (text "newAgent") 400000 (domain ∷ address ∷ []) ∷ [])

  update_agent-submitted :
      (registry : Text) (id : ℤ) (domain address : Text) (u : World)
      → (update_agent net registry id domain address u).1.submitted
        ≡ u.submitted
          ++ contract_call registry (text "updateAgent") 400000 (print id ∷ domain ∷ address ∷ [])
            ∷ []
  unfolding update_agent execute
  update_agent-submitted registry id domain address u =
      by_fate
        (net.submit u.submitted
          (contract_call registry (text "updateAgent") 400000 (print id ∷ domain ∷ address ∷ [])))
        refl
    where
      by_fate :
          (f : Fate)
          → net.submit u.submitted (
              contract_call registry (text "updateAgent") 400000 (print id ∷ domain ∷ address ∷ []))
            ≡ f
          → (update_agent net registry id domain address u).1.submitted
            ≡ u.submitted
              ++ contract_call registry
                  (text "updateAgent")
                  400000
                  (print id ∷ domain ∷ address ∷ [])
                ∷ []
      by_fate (threw m) e = rw (e, update_agent) refl
      by_fate (receipt s t a b) e = rw (e, update_agent) refl

  update_agent-Updated :
      (registry domain address : Text) (id : ℤ) (line : Line) (before : List Transaction)
      (u w' : World)
      → u.submitted ≡ before
      → (update_agent net registry id domain address >>= λ transaction.
            return (agent (print id) address transaction false))
          u
        ≡ (ok line, w')
      → Updated registry domain address id line before w'.submitted
  update_agent-Updated registry domain address id line before u w' was h =
      let (transaction, h₁, _) = bind_done (update_agent net registry id domain address) _ u h in
      let last : w' ≡ (update_agent net registry id domain address u).1 = ground (arith, h₁) in
      (
        transaction,
        ground (arith, h₁),
        ap (λ x. x.submitted) last
            ∙ (update_agent-submitted registry id domain address u
                ∙ ap
                    (λ b.
                      b
                      ++ contract_call registry (text "updateAgent") 400000
                          (print id ∷ domain ∷ address ∷ [])
                        ∷ [])
                    was),
      )

  new_agent-Created :
      (registry domain address : Text) (line : Line) (before : List Transaction) (u w' : World)
      → u.submitted ≡ before
      → (new_agent net registry domain address >>= λ made.
            return (agent (print made.0) address made.1 true))
          u
        ≡ (ok line, w')
      → Created registry domain address line before w'.submitted
  unfolding new_agent execute
  new_agent-Created registry domain address line before u w' was h =
      let tx = contract_call registry (text "newAgent") 400000 (domain ∷ address ∷ []) in
      let (made, h₁, e) = bind_done (new_agent net registry domain address) _ u h in
      let u' = (new_agent net registry domain address u).1 in
      let (r, h₂, _) = bind_done (execute net tx) _ u (ap (λ m. (m, u')) e) in
      let v = (execute net tx u).1 in
      let (id, h₃, f) = bind_done (agent_id_of net registry address) _ v h₂ in
      let (there, same) = agent_id_of-ok registry address id v f in
      let is_made : (id, r.1) ≡ made = ok_injective (id, r.1) made (ap (λ m. m.0) h₃) in
      let shown : agent (print made.0) address made.1 true ≡ line =
        ok_injective (agent (print made.0) address made.1 true) line (ap (λ m. m.0) h₁) in
      let last : v ≡ w' = sym same ∙ (ap (λ m. m.1) h₃ ∙ ap (λ m. m.1) h₁) in
      (
        id,
        r.1,
        ap (λ x. net.agent_of x.submitted registry address) (sym last) ∙ there,
        sym shown ∙ ap (λ m. agent (print m.0) address m.1 true) (sym is_made),
        ap (λ x. x.submitted) (sym last) ∙ ap (λ b. b ++ tx ∷ []) was,
      )

module _ {Key : Type 0} (sdk : Sdk Key) (nets : Ledger → Network) (options : GlobalOptions) where
  -- A registration that is reported has submitted exactly one call: the update of the agent that
  -- the registry had for the operator's address, reported under its id, or, if it had none, the
  -- creation of one, reported under the id that the registry has after it.
  pub run_identity_register-Registered :
      (registry domain : Text) (line : Line) (w w' : World)
      → run_identity_register sdk nets options registry domain w ≡ (ok line, w')
      → (operator : Operator Key) × (existing : ℤ) × ((connect sdk nets options w).0 ≡ ok operator)
        × ((net sdk nets options).agent_of w.submitted registry operator.evm_address
            ≡ some existing)
        × (((leb_ℤ existing (pos 0) ≡ false)
              × Updated
                  (net sdk nets options)
                  registry
                  domain
                  operator.evm_address
                  existing
                  line
                  w.submitted
                  w'.submitted)
            ⊎ ((leb_ℤ existing (pos 0) ≡ true)
                × Created
                    (net sdk nets options)
                    registry
                    domain
                    operator.evm_address
                    line
                    w.submitted
                    w'.submitted))
  unfolding run_identity_register
  run_identity_register-Registered registry domain line w w' h =
      let (operator, h₁, e) = bind_done (connect sdk nets options) _ w h in
      let v = (connect sdk nets options w).1 in
      let (existing, h₂, f) =
        bind_done (agent_id_of (net sdk nets options) registry operator.evm_address) _ v h₁ in
      let (there, same) =
        agent_id_of-ok (net sdk nets options) registry operator.evm_address existing v f in
      let before = connect-submitted sdk nets options w in
      (
        operator,
        existing,
        e,
        sym (ap (λ b. (net sdk nets options).agent_of b registry operator.evm_address) before)
            ∙ there,
        elim (Bool-cases (leb_ℤ existing (pos 0))) [
          | inl none_ ↦ inr (
            none_,
            new_agent-Created (net sdk nets options) registry domain operator.evm_address line
                w.submitted _ w' (ap (λ x. x.submitted) same ∙ before) (rw none_ at h₂),
          )
          | inr one ↦ inl (
            one,
            update_agent-Updated (net sdk nets options) registry domain operator.evm_address
                existing line w.submitted _ w' (ap (λ x. x.submitted) same ∙ before) (rw one at h₂),
          )
        ],
      )
