-- ===== src/Views.antt =====
-- The views of apis/wallet/command_views.py that manage a wallet's state. A request is its method
-- and the user id that the middleware has put on it; a response is its status and its body.
pub mod Statuses
pub mod Bodies
pub mod Balance
pub mod Answered
pub mod Read
pub mod Query
pub mod Found
mod Tests
use microservice_wallet_serv.Base.{
  ℕ, String, Bool, true, false, not, Option, none, some, if◌then◌else◌,
}
use microservice_wallet_serv.Base.Text.{Text, is_truthy}
use microservice_wallet_serv.Errors.{
  Uuid, PyError, Result, ok, err, is_wallet_domain_error, is_wallet_not_found,
}
use microservice_wallet_serv.Errors.Exec.{Exec}
use microservice_wallet_serv.Queries.{WalletView}
use microservice_wallet_serv.Handler
use microservice_wallet_serv.Handler.{CommandService}

pub record Request : Type 0 where
  pub is_post : Bool
  pub user_id : Option Text

-- `domain_error e` is `{"error": str(e)}`, and `invalid_format e` that text after a prefix
pub data Content : Type 0 where
  error : String → Content
  domain_error : PyError → Content
  invalid_format : PyError → Content
  wallet : WalletView → Content

pub record Response : Type 0 where
  pub status : ℕ
  pub content : Content

-- `hasattr(request, "user_id") and request.user_id`
unfoldable pub is_authenticated : Request → Bool
is_authenticated r = elim r.user_id [ none ↦ false | some t ↦ is_truthy t ]

-- the `except` clauses, in their order
unfoldable pub failure : PyError → Response
failure e =
    if is_wallet_domain_error e
    then record { status = 400; content = domain_error e }
    else if is_wallet_not_found e
    then record { status = 404; content = error "Wallet not found" }
    else record { status = 500; content = error "Internal server error" }

unfoldable pub respond : Result WalletView → Response
unfolding failure
respond (ok v) = record { status = 200; content = wallet v }
respond (err e) = failure e

-- the tests of the request, then the call
unfoldable pub serve : {S : Type 0} → Exec S WalletView → Request → S → Response × S
unfolding is_authenticated respond
serve call request s =
    let (r, s') = call s in
    if not request.is_post
    then (record { status = 405; content = error "Method not allowed" }, s)
    else if not (is_authenticated request)
    then (record { status = 401; content = error "Authentication required" }, s)
    else (respond r, s')

module _ {S : Type 0} (commands : CommandService S)
    (get_wallet : Option Uuid → Exec S WalletView) where
  unfoldable pub suspend_view : Request → Uuid → S → Response × S
  suspend_view request id = serve (Handler.suspend_wallet commands get_wallet (some id)) request

  unfoldable pub activate_view : Request → Uuid → S → Response × S
  activate_view request id = serve (Handler.activate_wallet commands get_wallet (some id)) request

  unfoldable pub close_view : Request → Uuid → S → Response × S
  close_view request id = serve (Handler.close_wallet commands get_wallet (some id)) request
