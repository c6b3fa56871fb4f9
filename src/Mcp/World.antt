-- ===== src/Mcp/World.antt =====
-- What the tools of the MCP server read and write, and what they have from outside: the nodes that
-- answer, the paying fetch of the x402 packages, the key generator and the disk. A tool is a
-- function on the world that returns or throws; what it wrote before a throw stays written.
use mach.Base.{refl, ◌⊎◌, inl, inr, ℕ, Bool, true, Option, none, some, List, All, ◌≡◌}
use mach.Base.Int.{ℤ}
use mach.Js.Text.{Text}
use mach.Js.BigInt.{parse}
use mach.Types.Session.{SessionSpec, SessionCreated, SessionState}

-- An entry of `accepts` in a 402 challenge.
pub record Requirements : Type 0 where
  pub scheme : Text
  pub network : Text
  pub asset : Text
  pub amount : Text
  pub pay_to : Text

pub record Settlement : Type 0 where
  pub success : Bool
  pub error_reason : Option Text
  pub error_message : Option Text
  pub payer : Option Text
  pub transaction : Text
  pub network : Text

-- The body of a response, as the client casts it: a session, a state, an object with an `error`, any
-- other JSON, or a text that is no JSON.
pub data Body : Type 0 where
  created : SessionCreated → Body
  state : SessionState → Body
  failure : Text → Body
  json : Body
  plain : Text → Body

-- A header that is absent, cannot be decoded, or holds a value.
pub data Header (A : Type 0) : Type 0 where
  absent garbled : Header A
  held : A → Header A

pub record Response : Type 0 where
  pub status : ℕ
  pub payment_required : Header (List Requirements)
  pub payment_response : Header Settlement
  pub x_payment_response : Header Settlement
  pub body : Body

pub record HttpRequest : Type 0 where
  pub method : Text
  pub url : Text
  pub authorization : Option Text
  pub spec : Option SessionSpec

pub record SshIdentity : Type 0 where
  pub dir : Text
  pub key_path : Text
  pub public_key : Text
  pub cert_path : Text

-- The `n`-th call of each is answered by `n`, so answers may change over time. `fetch_paying` is
-- `wrapFetchWithPayment(fetch, client)` with a policy on the options of a challenge: beside the
-- response, which may fail to come, it tells what was signed.
pub record Outside : Type 0 where
  pub fetch : ℕ → HttpRequest → Option Response
  pub fetch_paying : (Requirements → Bool) → ℕ → HttpRequest → Option Response × List Requirements
  pub elapsed : ℕ → ℕ
  pub random_uuid : ℕ → Text
  pub ssh_keygen : ℕ → Option SshIdentity
  pub certificate_saved : ℕ → Bool
  pub has_credentials : Bool

-- x402 lets a registered policy choose among the options, and signs only what it left.
abbrev pub RespectsPolicy : Outside → Type 0
RespectsPolicy o =
    (policy : Requirements → Bool) (n : ℕ) (request : HttpRequest)
    → All (λ r. policy r ≡ true) (o.fetch_paying policy n request).1

pub data Failure : Type 0 where
  bad_status no_receipt not_settled : Failure

pub data Error : Type 0 where
  syntax_error : Text → Error
  type_error : Error
  fetch_failed : Error
  keygen_failed : Error
  disk_failed : Error
  no_credentials : Error
  daily_cap : (spent amount cap : ℤ) → Error
  no_hold : (id : Text) → Error
  payment_error : Failure → (status : ℕ) → (detail : Text) → Error
  node_error : (what : Text) → (status : ℕ) → (detail : Text) → Error

pub data Result {ℓ} (A : Type ℓ) : Type ℓ where
  ok : A → Result A
  err : Error → Result A

pub Result-cases :
    {A : Type 0} (x : Result A) → ((a : A) × (x ≡ ok a)) ⊎ ((e : Error) × (x ≡ err e))
Result-cases (ok a) = inl (a, refl)
Result-cases (err e) = inr (e, refl)

pub record SpendRecord : Type 0 where
  pub node_url : Text
  pub session_id : Option Text
  pub transaction : Text
  pub payer : Text
  pub amount_tinybars : Text
  pub network : Text
  pub paid_at : Text

-- A line of the receipts file: white space, no JSON, JSON of some other shape, or a record.
pub data Line : Type 0 where
  blank malformed foreign : Line
  entry : SpendRecord → Line

pub record AuditEntry : Type 0 where
  pub tool : Text
  pub node_url : Text
  pub session_id : Text
  pub amount_tinybars : Option Text
  pub outcome : Text
  pub at : Text

pub data PendingAction : Type 0 where
  open_session :
      (node_url : Text)
      → (seconds : ℤ) → (require_gpu : Option Bool) → (local_port : Option ℤ) → PendingAction
  top_up_session : (node_url session_id token : Text) → PendingAction

pub record ConfirmationHold : Type 0 where
  pub id : Text
  pub amount_tinybars : ℤ
  pub action : PendingAction
  pub expires_at : ℕ

-- The state of the process and of its two files. `paid` is what has been signed with the account's
-- key: the program does not keep it. `receipts` is `none` while the file does not exist. Each of the
-- two files may refuse what is written.
pub record World : Type 0 where
  pub now : ℕ
  pub calls : ℕ
  pub paid : List Requirements
  pub receipts : Option (List Line)
  pub writable : Bool
  pub audit : List AuditEntry
  pub audit_writable : Bool
  pub holds : List ConfirmationHold

abbrev pub M : Type 0 → Type 0
M A = World → Result A × World

abbrev pub return : {A : Type 0} → A → M A
return a w = (ok a, w)

abbrev pub throw : {A : Type 0} → Error → M A
throw e w = (err e, w)

abbrev pub continue : {A B : Type 0} → Result A → (A → M B) → M B
continue (ok a) f w = f a w
continue (err e) f w = (err e, w)

infixl 5 ◌>>=◌ ◌>>◌
abbrev pub ◌>>=◌ : {A B : Type 0} → M A → (A → M B) → M B
◌>>=◌ m f w = let (r, w') = m w in continue r f w'

abbrev pub ◌>>◌ : {A B : Type 0} → M A → M B → M B
m >> k = m >>= λ _. k

abbrev pub get : M World
get w = (ok w, w)

abbrev pub lift : {A : Type 0} → Result A → M A
lift r w = (r, w)

abbrev pub or_throw : {A : Type 0} → Option A → Error → M A
or_throw none e = throw e
or_throw (some a) e = return a

-- `BigInt(text)`, which throws a `SyntaxError`
abbrev pub big_int : Text → Result ℤ
big_int t = elim (parse t) [ none ↦ err (syntax_error t) | some z ↦ ok z ]
