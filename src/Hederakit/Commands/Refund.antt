-- ===== src/Hederakit/Commands/Refund.antt =====
-- The refund command: what it has done when it reports a transfer.
use mach.Base.{
  ℕ, ◌<◌, ◌≡◌, ◌∙◌, refl, sym, ap, Bool, true, false, not, some, List, [], ◌∷◌, ◌++◌, arith,
  if◌then◌else◌, Bool-cases, Option-cases, inl, inr,
}
use mach.Base.Int.{ℤ, pos, negsuc, leb_ℤ}
use mach.Js.Text.{Text, text, ◌===◌, slice_to}
use mach.Js.BigInt.{parse, print}
use mach.Hederakit.Key.{Sdk}
use mach.Hederakit.Ledger.{
  Transaction, hbar_transfer, Error, ok, World, return, throw, Network, parse_account_id, send_hbar,
  execute,
}
use mach.Hederakit.Commands.{GlobalOptions, refunded, Line, connect, run_refund, Ledger, net}
use mach.Hederakit.Commands.Steps.{bind_done, parse_account_id-same, connect-submitted}

module _ (net : Network) where
  parse_account_id-ok :
      (id a : Text) (w : World) → (parse_account_id net id w).0 ≡ ok a → net.account id ≡ some a
  unfolding parse_account_id
  parse_account_id-ok id a w h = elim (Option-cases (net.account id)) [
    | inl e ↦ absurd (ground (arith, rw (e, parse_account_id) at h))
    | inr (b, e) ↦
        let same : ok b ≡ ok a = rw (e, parse_account_id) at h in e ∙ ap some (ground (arith, same))
  ]

  -- The transfer that a refund has submitted: a positive amount from one account to the
  -- one asked for.
  abbrev pub Transferred :
      (credit tinybars memo amount : Text) → (before after : List Transaction) → Type 0
  Transferred credit tinybars memo amount before after =
      (by : Text) × (to : Text) × (n : ℕ) × (0 < n)
      × (net.account credit ≡ some to)
      × (parse tinybars ≡ some (pos n))
      × (amount ≡ print (pos n))
      × (after ≡ before ++ hbar_transfer by to (pos n) (slice_to 100 memo) ∷ [])

  Transferred-along :
      (credit tinybars memo amount : Text) (before before' after after' : List Transaction)
      → before' ≡ before
      → after' ≡ after
      → Transferred credit tinybars memo amount before after
      → Transferred credit tinybars memo amount before' after'
  Transferred-along credit tinybars memo amount before before' after after' e f
        (by, to, n, more, there, p, q, h) =
      (
        by,
        to,
        n,
        more,
        there,
        p,
        q,
        f ∙ (h ∙ ap (λ b. b ++ hbar_transfer by to (pos n) (slice_to 100 memo) ∷ []) (sym e)),
      )

  at_end :
      (b : Bool) (e : Error) (x y transaction amount : Text) (v w' : World)
      → (if b then throw {A = Text × Text} e else return {A = Text × Text} (x, y)) v
        ≡ (ok (transaction, amount), w')
      → (amount ≡ y) × (w' ≡ v)
  at_end true e x y transaction amount v w' h = absurd (ground (arith, h))
  at_end false e x y transaction amount v w' h = (ground (arith, h), ground (arith, h))

  above_zero : (z : ℤ) → leb_ℤ z (pos 0) ≡ false → (n : ℕ) × (0 < n) × (z ≡ pos n)
  above_zero (pos n) h = (n, ground arith, refl)
  above_zero (negsuc n) h = absurd (ground arith)

  send_hbar-Transferred :
      (debit credit tinybars memo transaction amount : Text) (w w' : World)
      → send_hbar net debit credit tinybars memo w ≡ (ok (transaction, amount), w')
      → Transferred credit tinybars memo amount w.submitted w'.submitted
  unfolding send_hbar execute
  send_hbar-Transferred debit credit tinybars memo transaction amount w w' h =
      elim (Option-cases (parse tinybars)) [
        | inl e ↦ absurd (ground (arith, rw (e, send_hbar) at h))
        | inr (z, e) ↦ elim (Bool-cases (leb_ℤ z (pos 0))) [
          | inl low ↦ absurd (ground (arith, rw (e, low, send_hbar) at h))
          | inr high ↦
              let (by, h₁, _) =
                bind_done (parse_account_id net debit) _ w (rw (e, high, send_hbar) at h) in
              let (to, h₂, named) = bind_done (parse_account_id net credit) _ _ h₁ in
              let tx = hbar_transfer by to z (slice_to 100 memo) in
              let (r, h₃, _) = bind_done (execute net tx) _ _ h₂ in
              let (shown, last) =
                at_end (not (r.0 === text "SUCCESS")) _ _ _ transaction amount _ w' h₃ in
              let same =
                parse_account_id-same net credit (parse_account_id net debit w).1
                ∙ parse_account_id-same net debit w in
              let (n, more, pos_) = above_zero z high in
              let sent : w'.submitted
                  ≡ w.submitted ++ hbar_transfer by to z (slice_to 100 memo) ∷ [] =
                ap (λ v. v.submitted) last ∙ ap (λ v. v.submitted ++ tx ∷ []) same in
              (
                by,
                to,
                n,
                more,
                parse_account_id-ok credit to (parse_account_id net debit w).1 named,
                e ∙ ap (λ a. some a) pos_,
                shown ∙ ap print pos_,
                sent ∙ ap (λ a. w.submitted ++ hbar_transfer by to a (slice_to 100 memo) ∷ []) pos_,
              )
        ]
      ]

module _ {Key : Type 0} (sdk : Sdk Key) (nets : Ledger → Network) (options : GlobalOptions) where
  -- A refund that is reported has submitted, beyond what there was, exactly one transfer: of a
  -- positive amount, the one asked for and reported, to the account asked for, with the memo cut
  -- to a hundred characters.
  pub run_refund-Transferred :
      (to tinybars memo : Text) (line : Line) (w w' : World)
      → run_refund sdk nets options to tinybars memo w ≡ (ok line, w')
      → (transaction : Text) × (amount : Text) × (line ≡ refunded transaction amount to)
        × Transferred (net sdk nets options) to tinybars memo amount w.submitted w'.submitted
  unfolding run_refund
  run_refund-Transferred to tinybars memo line w w' h =
      let (operator, h₁, _) = bind_done (connect sdk nets options) _ w h in
      let v = (connect sdk nets options w).1 in
      let (paid, h₂, sent) =
        bind_done (send_hbar (net sdk nets options) operator.account_id to tinybars memo) _ v h₁ in
      let v' = (send_hbar (net sdk nets options) operator.account_id to tinybars memo v).1 in
      let (transaction, amount) = paid in
      let moved =
        send_hbar-Transferred (net sdk nets options) operator.account_id to tinybars memo
          transaction amount v v' (ap (λ r. (r, v')) sent) in
      let last : w' ≡ v' = ground (arith, h₂) in
      (
        transaction,
        amount,
        ground (arith, h₂),
        Transferred-along (net sdk nets options) to tinybars memo amount v.submitted w.submitted
            v'.submitted w'.submitted (sym (connect-submitted sdk nets options w))
            (ap (λ x. x.submitted) last) moved,
      )
