-- ===== src/Hederakit/Mirror.antt =====
-- hederakit/src/mirror.ts: the lookup of an account at a mirror node. `fetch` and
-- `encodeURIComponent` are parameters.
pub mod Lookup
use mach.Base.{
  ℕ, Bool, true, false, not, ◌&&◌, Option, none, some, List, [], ◌∷◌, ◌++◌, leb, ◌==◌,
  if◌then◌else◌,
}
use mach.Base.Int.{ℤ, pos}
use mach.Js.Text.{Text, text, ◌===◌}
use mach.Js.BigInt.{print}

-- An empty text stands for a field that is missing as well.
pub record MirrorAccountResponse : Type 0 where
  pub account : Text
  pub evm_address : Text
  pub receiver_sig_required : Option Bool
  pub balance : Option ℤ

-- `body` is `none` where the body is no JSON.
pub record Response : Type 0 where
  pub status : ℕ
  pub body : Option MirrorAccountResponse

pub record MirrorAccount : Type 0 where
  pub account_id : Text
  pub evm_address : Text
  pub balance_tinybars : Text
  pub receiver_sig_required : Bool

pub data MirrorError : Type 0 where
  unreachable malformed : MirrorError
  bad_status : ℕ → MirrorError

pub data Answer : Type 0 where
  answered : Option MirrorAccount → Answer
  failed : MirrorError → Answer

abbrev pub push_unless_slash : ℕ → Text → Text
push_unless_slash c [] = if c == b'/' then [] else c ∷ []
push_unless_slash c (d ∷ s) = c ∷ d ∷ s

-- `.replace(/\/+$/, "")`
unfoldable pub drop_end_slashes : Text → Text
drop_end_slashes [] = []
drop_end_slashes (c ∷ s) = push_unless_slash c (drop_end_slashes s)

-- `override ?? env ?? DEFAULT_MIRROR_URL`
abbrev pub first_of : Option Text → Option Text → Text
first_of (some url) env = url
first_of none (some url) = url
first_of none none = text "https://testnet.mirrornode.hedera.com"

unfoldable pub mirror_url : Option Text → Option Text → Text
unfolding drop_end_slashes
mirror_url override env = drop_end_slashes (first_of override env)

abbrev number_or : Option ℤ → ℤ
number_or none = pos 0
number_or (some z) = z

abbrev is_true : Option Bool → Bool
is_true none = false
is_true (some b) = b

unfoldable pub to_account : MirrorAccountResponse → Option MirrorAccount
to_account body =
    if body.account === []
    then none
    else some (record {
      account_id = body.account;
      evm_address = body.evm_address;
      balance_tinybars = print (number_or body.balance);
      receiver_sig_required = is_true body.receiver_sig_required;
    })

abbrev is_ok : ℕ → Bool
is_ok status = leb 200 status && leb status 299

unfoldable pub read_response : Response → Answer
unfolding to_account
read_response r =
    if r.status == 404
    then answered none
    else if not (is_ok r.status)
    then failed (bad_status r.status)
    else elim r.body [ none ↦ failed malformed | some body ↦ answered (to_account body) ]

module _ (fetch : Text → Option Response) (encode : Text → Text) where
  abbrev pub account_url : Text → Text → Text
  account_url base id_or_address = base ++ (text "/api/v1/accounts/" ++ encode id_or_address)

  unfoldable pub lookup_account : Text → Option Text → Option Text → Answer
  unfolding mirror_url read_response
  lookup_account id_or_address base_url env =
      elim (fetch (account_url (mirror_url base_url env) id_or_address)) [
        | none ↦ failed unreachable
        | some r ↦ read_response r
      ]
