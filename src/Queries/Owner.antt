-- ===== src/Queries/Owner.antt =====
-- application/wallet/handlers/wallet_query_handler.py: views with their owners. What the user
-- service answers is an argument; an exception of its client is `err`.
use microservice_wallet_serv.Base.{Bool, false, Option, none, some}
use microservice_wallet_serv.Base.Int.{ℤ}
use microservice_wallet_serv.Base.Dict.{Dict}
use microservice_wallet_serv.Errors.{Uuid, Result, ok, err, wallet_not_found, ◌>>=◌}
use microservice_wallet_serv.Event.Json.{Json}
use microservice_wallet_serv.ReadModel.{WalletRow}
use microservice_wallet_serv.Queries.{
  WalletView, or_not_found, get_wallet, get_wallet_by_user, get_wallet_balance, wallet_exists,
}

-- `UserView` of application/external/user_view.py; the names are what JSON held, whatever its type
pub record UserView : Type 0 where
  pub user_id : Uuid
  pub username : Json
  pub first_name : Json
  pub last_name : Json

-- `WalletResponseDTO` of handlers/dtos.py
pub record WalletResponse : Type 0 where
  pub wallet : WalletView
  pub owner : Option UserView

abbrev pub UserClient : Type 0
UserClient = Uuid → Result UserView

-- `try: owner = …` with `except Exception: pass`
unfoldable pub owner_of : UserClient → WalletView → WalletResponse
owner_of users v = elim (users v.user_id) [
  | ok user ↦ record { wallet = v; owner = some user }
  | err _ ↦ record { wallet = v; owner = none }
]

-- `get_wallet_with_owner`
unfoldable pub get_wallet_with_owner : UserClient → Uuid → Dict WalletRow → Result WalletResponse
unfolding or_not_found owner_of
get_wallet_with_owner users id rows = do
  v ← or_not_found (wallet_not_found (some id) none) (get_wallet (some id) rows)
  ok (owner_of users v)

-- `get_wallet_by_user_with_owner`
unfoldable pub get_wallet_by_user_with_owner :
    UserClient → Uuid → Dict WalletRow → Result WalletResponse
unfolding or_not_found owner_of
get_wallet_by_user_with_owner users user rows = do
  v ← or_not_found (wallet_not_found none (some user)) (get_wallet_by_user (some user) rows)
  ok (owner_of users v)

-- `get_wallet_balance`: every failure becomes WalletNotFoundError
unfoldable pub wallet_balance : Uuid → Dict WalletRow → Result ℤ
wallet_balance id rows = elim (get_wallet_balance (some id) rows) [
  | ok balance ↦ ok balance
  | err _ ↦ err (wallet_not_found (some id) none)
]

-- `wallet_exists`: every failure becomes `False`
unfoldable pub has_wallet : Uuid → Dict WalletRow → Bool
has_wallet id rows = elim (wallet_exists (some id) rows) [ ok answer ↦ answer | err _ ↦ false ]
