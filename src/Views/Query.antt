-- ===== src/Views/Query.antt =====
-- The views of apis/wallet/query_views.py over the query handler. The texts of JSON responses are not
-- modelled.
use microservice_wallet_serv.Base.{ℕ, String, Bool, not, if◌then◌else◌}
use microservice_wallet_serv.Base.Int.{ℤ}
use microservice_wallet_serv.Base.Dict.{Dict}
use microservice_wallet_serv.Errors.{Uuid, PyError, Result, ok, err, is_wallet_not_found}
use microservice_wallet_serv.ReadModel.{WalletRow}
use microservice_wallet_serv.Queries.Owner.{
  UserClient, WalletResponse, get_wallet_with_owner, get_wallet_by_user_with_owner, wallet_balance,
  has_wallet,
}

pub data QueryContent : Type 0 where
  error : String → QueryContent
  wallet_and_owner : WalletResponse → QueryContent
  balance : ℤ → QueryContent
  exists : Bool → QueryContent

pub record QueryResponse : Type 0 where
  pub status : ℕ
  pub content : QueryContent

abbrev refuse : ℕ → String → QueryResponse
refuse status message = record { status = status; content = error message }

-- the `except` clauses of the three views that have one for WalletNotFoundError
unfoldable pub query_failure : String → PyError → QueryResponse
query_failure missing e =
    if is_wallet_not_found e then refuse 404 missing else refuse 500 "Internal server error"

unfoldable pub query_respond : {A : Type 0} → String → (A → QueryContent) → Result A → QueryResponse
unfolding query_failure
query_respond missing show (ok a) = record { status = 200; content = show a }
query_respond missing show (err e) = query_failure missing e

-- `if request.method != "GET"`, then the query
unfoldable pub serve_query :
    {A : Type 0} → String → (A → QueryContent) → Bool → Result A → QueryResponse
unfolding query_respond
serve_query missing show is_get r =
    if not is_get then refuse 405 "Method not allowed" else query_respond missing show r

unfoldable pub wallet_view : UserClient → Bool → Uuid → Dict WalletRow → QueryResponse
unfolding serve_query get_wallet_with_owner
wallet_view users is_get id rows =
    serve_query "Wallet not found" wallet_and_owner is_get (get_wallet_with_owner users id rows)

unfoldable pub user_wallet_view : UserClient → Bool → Uuid → Dict WalletRow → QueryResponse
unfolding serve_query get_wallet_by_user_with_owner
user_wallet_view users is_get user rows =
    serve_query "Wallet not found for user" wallet_and_owner is_get
      (get_wallet_by_user_with_owner users user rows)

unfoldable pub balance_view : Bool → Uuid → Dict WalletRow → QueryResponse
unfolding serve_query wallet_balance
balance_view is_get id rows = serve_query "Wallet not found" balance is_get (wallet_balance id rows)

-- `check_wallet_exists`; the handler's method returns always
unfoldable pub exists_view : Bool → Uuid → Dict WalletRow → QueryResponse
unfolding has_wallet
exists_view is_get id rows =
    if not is_get
    then refuse 405 "Method not allowed"
    else record { status = 200; content = exists (has_wallet id rows) }
