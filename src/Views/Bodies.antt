-- ===== src/Views/Bodies.antt =====
-- The views of apis/wallet/command_views.py that read a JSON body. `json.loads(request.body)` is a
-- parameter, `none` a JSONDecodeError. An exception that leaves a view is an `err` of it. A currency
-- or a reason that is not a text fails in the service as an empty one does.
use microservice_wallet_serv.Base.{
  ℕ, String, Bool, true, false, not, Option, none, some, List, [], if◌then◌else◌,
}
use microservice_wallet_serv.Base.Text.{Text}
use microservice_wallet_serv.Errors.{
  PyError, Result, ok, err, is_wallet_domain_error, is_wallet_not_found, is_value_error,
}
use microservice_wallet_serv.Errors.Exec.{Exec}
use microservice_wallet_serv.Event.Json.{Json, str}
use microservice_wallet_serv.Event.Untyped.{all_in}
use microservice_wallet_serv.Queries.{WalletView}
use microservice_wallet_serv.Views.{
  Request, Response, error, domain_error, invalid_format, wallet, is_authenticated,
}

pub record BodyRequest : Type 0 where
  pub request : Request
  pub open request use *
  pub body : Text

abbrev pub answer : ℕ → String → Response
answer status message = record { status = status; content = error message }

-- the `except` clauses, in their order; `create_wallet` has none for WalletNotFoundError
unfoldable pub body_failure : Bool → PyError → Response
body_failure has_not_found e =
    if is_wallet_domain_error e
    then record { status = 400; content = domain_error e }
    else if if has_not_found then is_wallet_not_found e else false
    then answer 404 "Wallet not found"
    else if is_value_error e
    then record { status = 400; content = invalid_format e }
    else answer 500 "Internal server error"

unfoldable pub body_respond : Bool → ℕ → Result WalletView → Response
unfolding body_failure
body_respond has_not_found status (ok v) = record { status = status; content = wallet v }
body_respond has_not_found status (err e) = body_failure has_not_found e

abbrev pub as_text_or_empty : Json → Text
as_text_or_empty (str s) = s
as_text_or_empty _ = []

-- what differs between the views: the status of a success, whether WalletNotFoundError has a clause,
-- the required fields, what is read before the `try`, and what is read in it
pub record BodyView (O A : Type 0) : Type 0 where
  pub status : ℕ
  pub has_not_found : Bool
  pub required : List String
  pub outer : Json → Result O
  pub inner : Option Text → O → Json → Result A

module _ {S O A : Type 0} (loads : Text → Option Json) (view : BodyView O A)
    (call : A → Exec S WalletView) where
  open view use {status, has_not_found, required, outer, inner}

  -- the `try` with the handler's method
  unfoldable pub answer_read : Result A → S → Response × S
  unfolding body_respond
  answer_read (err e) s = (body_respond has_not_found status (err e), s)
  answer_read (ok a) s = let (r, s') = call a s in (body_respond has_not_found status r, s')

  -- the rest after the test of the fields
  unfoldable pub answer_outer : Option Text → Json → Result O → S → Result Response × S
  unfolding answer_read
  answer_outer user body (err e) s = (err e, s)
  answer_outer user body (ok o) s = let (r, s') = answer_read (inner user o body) s in (ok r, s')

  unfoldable pub answer_fields : Option Text → Json → Result Bool → S → Result Response × S
  unfolding answer_outer
  answer_fields user body (err e) s = (err e, s)
  answer_fields user body (ok false) s = (ok (answer 400 "Missing required fields"), s)
  answer_fields user body (ok true) s = answer_outer user body (outer body) s

  unfoldable pub answer_body : Option Text → Option Json → S → Result Response × S
  unfolding answer_fields all_in
  answer_body user none s = (ok (answer 400 "Invalid JSON body"), s)
  answer_body user (some body) s = answer_fields user body (all_in required body) s

  unfoldable pub serve_body : BodyRequest → S → Result Response × S
  unfolding answer_body is_authenticated
  serve_body r s =
      let answered = answer_body r.user_id (loads r.body) s in
      if not r.is_post
      then (ok (answer 405 "Method not allowed"), s)
      else if not (is_authenticated r.request)
      then (ok (answer 401 "Authentication required"), s)
      else answered
