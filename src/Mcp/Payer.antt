-- ===== src/Mcp/Payer.antt =====
-- packages/mcp-server/src/vendor/payer.ts: the policy on what may be signed, and the paid fetch.
pub mod Policy
use mach.Base.{
  ℕ, suc, ◌+◌, Bool, true, false, not, ◌&&◌, Option, none, some, List, [], ◌∷◌, ◌++◌, leb,
  if◌then◌else◌,
}
use mach.Base.Int.{ℤ, pos, leb_ℤ}
use mach.Js.Text.{Text, text, ◌===◌, trim}
use mach.Js.BigInt.{parse}
use mach.Types.X402.{hbar_asset_id}
use mach.Mcp.World.{
  Requirements, Settlement, Header, absent, garbled, held, syntax_error, Body, failure, plain,
  Response, HttpRequest, Outside, World, M, Error, fetch_failed, payment_error, bad_status,
  no_receipt, not_settled, return, throw, ◌>>=◌, ◌>>◌,
}

-- 0.1 HBAR
abbrev pub default_max_tinybars_per_payment : ℕ
default_max_tinybars_per_payment = 10000000

abbrev at_most : ℤ → Option ℤ → Bool
at_most max none = false
at_most max (some amount) = leb_ℤ amount max

unfoldable pub acceptable : Text → ℤ → Requirements → Bool
acceptable network max_tinybars option =
    if not (option.network === network)
    then false
    else if not (option.asset === hbar_asset_id)
    then false
    else at_most max_tinybars (parse option.amount)

-- `response.ok`
abbrev pub is_ok : Response → Bool
is_ok r = leb 200 r.status && leb r.status 299

-- `a ?? b` of two headers
abbrev pub or_else : {A : Type 0} → Header A → Header A → Header A
or_else absent b = b
or_else garbled b = garbled
or_else (held a) b = held a

abbrev pub read_settlement : Response → Header Settlement
read_settlement r = or_else r.payment_response r.x_payment_response

-- The `error` of a JSON body, or the first 300 characters of another; `invalidReason` and
-- `errorReason` are read alike, and stand for `error` in the model's bodies.
abbrev pub describe_body : Body → Text
describe_body (failure detail) = if detail === [] then [] else text ": " ++ detail
describe_body (plain t) = if t === [] then [] else text ": " ++ mach.Base.take 300 t
describe_body _ = []

abbrev pub text_or : Option Text → Text → Text
text_or none d = d
text_or (some t) d = t

-- The reason that the error tells of a settlement that failed.
abbrev pub settlement_reason : Settlement → Text
settlement_reason s = trim (
    text "settlement failed: "
    ++ (text_or s.error_reason (text "unknown") ++ (text " " ++ text_or s.error_message [])))

abbrev pub check_settlement : Response → Header Settlement → M (Response × Settlement)
check_settlement r absent = throw (payment_error no_receipt r.status [])
check_settlement r garbled = throw (syntax_error [])
check_settlement r (held s) =
    if not s.success
    then throw (payment_error not_settled r.status (settlement_reason s))
    else return (r, s)

module _ (o : Outside) where
  -- A call of the paying fetch: what was signed is added to `paid`, and time goes by.
  unfoldable pub pay : Text → ℤ → HttpRequest → M Response
  pay network max_tinybars request w =
      let (response, signed) = o.fetch_paying (acceptable network max_tinybars) w.calls request in
      let w' : World = record w {
        now = w.now + o.elapsed w.calls;
        calls = suc w.calls;
        paid = w.paid ++ signed;
      } in
      mach.Mcp.World.or_throw response fetch_failed w'

  unfoldable pub pay_for : Text → ℤ → HttpRequest → M (Response × Settlement)
  unfolding pay
  pay_for network max_tinybars request = do
    response ← pay network max_tinybars request
    if not (is_ok response)
        then throw (payment_error bad_status response.status (describe_body response.body))
        else check_settlement response (read_settlement response)
