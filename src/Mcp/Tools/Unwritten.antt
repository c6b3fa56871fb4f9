-- ===== src/Mcp/Tools/Unwritten.antt =====
-- Calls that leave the receipts and the audit as they were, step by step through the payment tools.
use mach.Base.{
  ◌==◌, not, ◌≡◌, ◌∙◌, refl, ap, if◌then◌else◌, Bool, true, false, Option, List, ◌++◌, suc, ◌+◌,
  arith,
}
use mach.Base.Int.{ℤ}
use mach.Js.Text.{Text}
use mach.Mcp.World.{
  Requirements, Settlement, Header, absent, garbled, held, Body, Response, HttpRequest, Outside,
  World, M, Result, ok, err, Error, continue, or_throw, ◌>>=◌, fetch_failed, keygen_failed,
}
use mach.Mcp.Payer.{acceptable, check_settlement, is_ok, read_settlement, pay, pay_for}
use mach.Mcp.Client
use mach.Mcp.Tools.{create_ssh_identity, create_payer, save_certificate}
use mach.Mcp.Tools.Careful.{or_throw_world}

-- The two files as they were, and as writable.
abbrev pub Files : World → World → Type 0
Files w w' =
    (w'.receipts ≡ w.receipts)
    × (w'.audit ≡ w.audit)
    × (w'.writable ≡ w.writable)
    × (w'.audit_writable ≡ w.audit_writable)

Files-same : (w w' : World) → w' ≡ w → Files w w'
Files-same w w' e = (
  ap (λ v. v.receipts) e,
  ap (λ v. v.audit) e,
  ap (λ v. v.writable) e,
  ap (λ v. v.audit_writable) e,
)

Files-trans : (u v w : World) → Files u v → Files v w → Files u w
Files-trans u v w (a, b, c, d) (a', b', c', d') = (a' ∙ a, b' ∙ b, c' ∙ c, d' ∙ d)

pub record IsUnwritten {A : Type 0} (m : M A) : Type 0 where
  pub files : (w : World) → Files w (m w).1

continue-Files :
    {A B : Type 0} (r : Result A) (f : A → M B) (w : World)
    → ((a : A) → IsUnwritten (f a))
    → Files w (continue r f w).1
continue-Files (ok a) f w h = (h a).files w
continue-Files (err e) f w h = (refl, refl, refl, refl)

pub bind-IsUnwritten :
    {A B : Type 0} {m : M A} {f : A → M B}
    → IsUnwritten m
    → ((a : A) → IsUnwritten (f a))
    → IsUnwritten (m >>= f)
bind-IsUnwritten {m = m} {f = f} h k = record {
  files = λ w.
      Files-trans w (m w).1 (continue (m w).0 f (m w).1).1 (h.files w)
        (continue-Files (m w).0 f (m w).1 k);
}

pub lift-IsUnwritten : {A : Type 0} {r : Result A} → IsUnwritten (λ w. (r, w))
lift-IsUnwritten = record { files = λ w. (refl, refl, refl, refl) }

if-IsUnwritten :
    {A : Type 0} (b : Bool) {m n : M A}
    → IsUnwritten m
    → IsUnwritten n
    → IsUnwritten (if b then m else n)
if-IsUnwritten true h k = h
if-IsUnwritten false h k = k

or_throw-IsUnwritten :
    {A : Type 0} (m : M A) (f : World → Option A) (g : World → World) (e : Error)
    → ((w : World) → m w ≡ or_throw (f w) e (g w))
    → ((w : World) → Files w (g w))
    → IsUnwritten m
or_throw-IsUnwritten m f g e same kept = record {
  files = λ w.
      Files-trans w (g w) (m w).1 (kept w)
        (Files-same (g w) (m w).1 (ap (λ r. r.1) (same w) ∙ or_throw_world (f w) e (g w)));
}

module _ (o : Outside) where
  pub fetch-IsUnwritten : (request : HttpRequest) → IsUnwritten (Client.fetch o request)
  unfolding Client.fetch
  fetch-IsUnwritten request =
      or_throw-IsUnwritten (Client.fetch o request) (λ w. o.fetch w.calls request)
        (λ w. record w { now = w.now + o.elapsed w.calls; calls = suc w.calls }) fetch_failed
        (λ w. refl) (λ w. (refl, refl, refl, refl))

  pub create_ssh_identity-IsUnwritten : IsUnwritten (create_ssh_identity o)
  unfolding create_ssh_identity
  create_ssh_identity-IsUnwritten =
      or_throw-IsUnwritten (create_ssh_identity o) (λ w. o.ssh_keygen w.calls)
        (λ w. record w { calls = suc w.calls }) keygen_failed (λ w. refl)
        (λ w. (refl, refl, refl, refl))

  pub create_payer-IsUnwritten : IsUnwritten (create_payer o)
  unfolding create_payer
  create_payer-IsUnwritten = record { files = λ w. ground arith }

  pub save_certificate-IsUnwritten : IsUnwritten (save_certificate o)
  unfolding save_certificate
  save_certificate-IsUnwritten = record { files = λ w. ground arith }

  pay-IsUnwritten :
      (network : Text) (max : ℤ) (request : HttpRequest) → IsUnwritten (pay o network max request)
  unfolding pay
  pay-IsUnwritten network max request =
      or_throw-IsUnwritten (pay o network max request)
        (λ w. (o.fetch_paying (acceptable network max) w.calls request).0)
        (λ w. record w {
          now = w.now + o.elapsed w.calls;
          calls = suc w.calls;
          paid = w.paid ++ (o.fetch_paying (acceptable network max) w.calls request).1;
        })
        fetch_failed (λ w. refl) (λ w. (refl, refl, refl, refl))

  check_settlement-IsUnwritten :
      (r : Response) (s : Header Settlement) → IsUnwritten (check_settlement r s)
  check_settlement-IsUnwritten r absent = lift-IsUnwritten
  check_settlement-IsUnwritten r garbled = lift-IsUnwritten
  check_settlement-IsUnwritten r (held s) =
      if-IsUnwritten (not s.success) lift-IsUnwritten lift-IsUnwritten

  pub pay_for-IsUnwritten :
      (network : Text) (max : ℤ) (request : HttpRequest)
      → IsUnwritten (pay_for o network max request)
  unfolding pay_for
  pay_for-IsUnwritten network max request =
      bind-IsUnwritten (pay-IsUnwritten network max request) (λ r.
        if-IsUnwritten (not (is_ok r)) lift-IsUnwritten
          (check_settlement-IsUnwritten r (read_settlement r)))

  pub decode_challenge-IsUnwritten :
      (r : Response) (what : Text) → IsUnwritten (Client.decode_challenge r what)
  unfolding Client.decode_challenge
  decode_challenge-IsUnwritten r what =
      if-IsUnwritten (not (r.status == 402)) lift-IsUnwritten
        (challenge_of-IsUnwritten what r.payment_required)
    where
      challenge_of-IsUnwritten :
          (what : Text) (h : Header (List Requirements)) → IsUnwritten (Client.challenge_of what h)
      challenge_of-IsUnwritten what absent = lift-IsUnwritten
      challenge_of-IsUnwritten what garbled = lift-IsUnwritten
      challenge_of-IsUnwritten what (held accepts) = lift-IsUnwritten

  pub as_session-IsUnwritten : (b : Body) → IsUnwritten (Client.as_session b)
  unfolding Client.as_session
  as_session-IsUnwritten (Body.created s) = lift-IsUnwritten
  as_session-IsUnwritten (Body.plain t) = lift-IsUnwritten
  as_session-IsUnwritten _ = lift-IsUnwritten

  pub as_state-IsUnwritten : (b : Body) → IsUnwritten (Client.as_state b)
  unfolding Client.as_state
  as_state-IsUnwritten (Body.state s) = lift-IsUnwritten
  as_state-IsUnwritten (Body.plain t) = lift-IsUnwritten
  as_state-IsUnwritten _ = lift-IsUnwritten
