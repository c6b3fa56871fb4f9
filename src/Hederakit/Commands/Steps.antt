-- ===== src/Hederakit/Commands/Steps.antt =====
-- The steps of a command: one that succeeds goes through each, and none before the last submits.
use mach.Base.{
  ◌≡◌, ◌∙◌, refl, ap, not, Option, none, some, [], arith, if_both, Option-cases, inl, inr,
}
use mach.Js.Text.{Text, ◌===◌}
use mach.Hederakit.Key
use mach.Hederakit.Key.{Sdk, Operator, load_operator, remember_account_id}
use mach.Hederakit.Mirror.{Answer, MirrorAccount, lookup_account}
use mach.Hederakit.Ledger.{
  Result, ok, err, next, World, M, ◌>>=◌, Network, read_answer, read_outcome, parse_account_id,
  keep_account, resolve_operator,
}
use mach.Hederakit.Commands.{GlobalOptions, connect, Ledger, net}

module _ {S T : Type 0} {t : T} {w' : World} where
  next_done :
      (r : Result S) (f : S → M T) (v : World)
      → next r f v ≡ (ok t, w')
      → (s : S) × (f s v ≡ (ok t, w')) × (r ≡ ok s)
  next_done (ok s) f v h = (s, h, refl)
  next_done (err e) f v h = absurd (ground (arith, h))

  -- A sequence of two steps that succeeds: both do.
  pub bind_done :
      (m : M S) (f : S → M T) (w : World)
      → (m >>= f) w ≡ (ok t, w')
      → (s : S) × (f s (m w).1 ≡ (ok t, w')) × ((m w).0 ≡ ok s)
  bind_done m f w h = next_done (m w).0 f (m w).1 h

module _ (net : Network) where
  pub parse_account_id-same : (id : Text) (w : World) → (parse_account_id net id w).1 ≡ w
  unfolding parse_account_id
  parse_account_id-same id w = elim (Option-cases (net.account id)) [
    | inl e ↦ rw (e, parse_account_id) refl
    | inr (a, e) ↦ rw (e, parse_account_id) refl
  ]

  -- Resolving the operator submits nothing.
  read_outcome-submitted :
      {A B : Type 0} (o : Key.Outcome A) (f : A → M B) (w : World)
      → ((a : A) → (f a w).1.submitted ≡ w.submitted)
      → (read_outcome o f w).1.submitted ≡ w.submitted
  read_outcome-submitted (Key.Outcome.done a) f w h = h a
  read_outcome-submitted (Key.Outcome.failed e) f w h = refl

  read_answer-submitted :
      {B : Type 0} (a : Answer) (f : Option MirrorAccount → M B) (w : World)
      → ((o : Option MirrorAccount) → (f o w).1.submitted ≡ w.submitted)
      → (read_answer a f w).1.submitted ≡ w.submitted
  read_answer-submitted (Answer.answered found) f w h = h found
  read_answer-submitted (Answer.failed e) f w h = refl

  keep_account-submitted :
      {K : Type 0} (operator : Operator K) (found : Option MirrorAccount) (w : World)
      → (keep_account net operator found w).1.submitted ≡ w.submitted
  unfolding keep_account
  keep_account-submitted operator none w = refl
  keep_account-submitted operator (some a) w =
      read_outcome-submitted (remember_account_id operator.path a.account_id w.disk).0 _ _
        (λ _. refl)

  resolve_operator-submitted :
      {K : Type 0} (operator : Operator K) (mirror_url : Option Text) (w : World)
      → (resolve_operator net operator mirror_url w).1.submitted ≡ w.submitted
  unfolding resolve_operator
  resolve_operator-submitted {K = K} operator mirror_url w =
      let url = net.env_mirror_url in
      let answer = lookup_account net.fetch net.encode operator.evm_address mirror_url url in
      if_both (λ (r : Result (Operator K) × World). r.1.submitted ≡ w.submitted)
        (not (operator.account_id === [])) refl
        (read_answer-submitted answer (keep_account net operator) w
          (λ found. keep_account-submitted operator found w))

  >>=-submitted :
      {A B : Type 0} (m : M A) (f : A → M B) (w : World)
      → ((m w).1.submitted ≡ w.submitted)
      → ((a : A) (v : World) → (f a v).1.submitted ≡ v.submitted)
      → ((m >>= f) w).1.submitted ≡ w.submitted
  >>=-submitted m f w h k = after (m w).0 (m w).1 h
    where
      after :
          (r : Result _) (v : World)
          → v.submitted ≡ w.submitted
          → (next r f v).1.submitted ≡ w.submitted
      after (ok a) v h = k a v ∙ h
      after (err e) v h = h

module _ {Key : Type 0} (sdk : Sdk Key) (nets : Ledger → Network) (options : GlobalOptions) where
  pub connect-submitted : (w : World) → (connect sdk nets options w).1.submitted ≡ w.submitted
  unfolding connect
  connect-submitted w =
      read_outcome-submitted (net sdk nets options) (load_operator sdk options.key_file w.disk) _ w
        (λ operator.
          >>=-submitted (net sdk nets options)
            (resolve_operator (net sdk nets options) operator options.mirror_url) _ w
            (resolve_operator-submitted (net sdk nets options) operator options.mirror_url w)
            (λ resolved v.
              >>=-submitted (net sdk nets options)
                (parse_account_id (net sdk nets options) resolved.account_id) _ v
                (ap (λ x. x.submitted)
                  (parse_account_id-same (net sdk nets options) resolved.account_id v))
                (λ _ u. refl)))
