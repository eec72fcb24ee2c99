-- ===== src/Queries.antt =====
-- The query side: infrastructure/repos/wallet/wallet_query_repo.py and
-- application/wallet/services/wallet_query_services.py. Queries read the table of wallets; other
-- failures of the database are not modelled.
pub mod Owner
pub mod Answers
mod Tests
use microservice_wallet_serv.Base.{
  ℕ, Bool, true, false, Option, none, some, List, [], ◌∷◌, ◌==◌, if◌then◌else◌,
}
use microservice_wallet_serv.Base.Int.{ℤ}
use microservice_wallet_serv.Base.Text.{Text}
use microservice_wallet_serv.Base.Dict.{Dict, lookup}
use microservice_wallet_serv.Errors.{
  Uuid, PyError, Result, ok, err, value_error, runtime_error, wallet_not_found, is_wallet_not_found,
  ◌>>=◌,
}
use microservice_wallet_serv.ReadModel.{WalletRow}

-- `WalletView` of domain/apps/wallet/models.py
pub record WalletView : Type 0 where
  pub wallet_id : Uuid
  pub user_id : Uuid
  pub balance : ℤ
  pub currency : Text
  pub status : Text
  pub created_at : ℕ
  pub updated_at : ℕ

unfoldable pub view : Uuid → WalletRow → WalletView
view id row = record {
  wallet_id = id;
  user_id = row.user_id;
  balance = row.balance;
  currency = row.currency;
  status = row.status;
  created_at = row.created_at;
  updated_at = row.updated_at;
}

-- `by_id`; a primary key has one row at most
unfoldable pub by_id : Uuid → Dict WalletRow → Result WalletView
unfolding view lookup
by_id id rows = elim (lookup id rows) [
  | some row ↦ ok (view id row)
  | none ↦ err (wallet_not_found (some id) none)
]

-- `filter(user_id=…)`
unfoldable pub of_user : Uuid → Dict WalletRow → List WalletView
unfolding view
of_user user [] = []
of_user user ((id, row) ∷ rows) =
    if row.user_id == user then view id row ∷ of_user user rows else of_user user rows

-- `objects.get`: one row, or an exception
unfoldable pub the_one : Uuid → List WalletView → Result WalletView
the_one user [] = err (wallet_not_found none (some user))
the_one user (v ∷ []) = ok v
the_one user (v ∷ w ∷ vs) = err (runtime_error "multiple wallets exist for user")

-- `by_user_id`
unfoldable pub by_user_id : Uuid → Dict WalletRow → Result WalletView
unfolding of_user the_one
by_user_id user rows = the_one user (of_user user rows)

-- `get_balance`
unfoldable pub get_balance : Uuid → Dict WalletRow → Result ℤ
unfolding lookup
get_balance id rows = elim (lookup id rows) [
  | some row ↦ ok row.balance
  | none ↦ err (wallet_not_found (some id) none)
]

-- `exists`
unfoldable pub exists : Uuid → Dict WalletRow → Bool
unfolding lookup
exists id rows = elim (lookup id rows) [ some _ ↦ true | none ↦ false ]

-- `except WalletNotFoundError: raise`, then `except Exception: raise WalletNotFoundError(…)`
unfoldable pub or_not_found : {A : Type 0} → PyError → Result A → Result A
or_not_found e (ok a) = ok a
or_not_found e (err x) = if is_wallet_not_found x then err x else err e

unfoldable pub given : {A : Type 0} → PyError → Option A → Result A
given e none = err e
given e (some a) = ok a

-- `get_wallet` of the query service
unfoldable pub get_wallet : Option Uuid → Dict WalletRow → Result WalletView
unfolding given or_not_found by_id
get_wallet wallet rows = do
  id ← given (value_error "wallet_id is required") wallet
  or_not_found (wallet_not_found (some id) none) (by_id id rows)

-- `get_wallet_by_user`
unfoldable pub get_wallet_by_user : Option Uuid → Dict WalletRow → Result WalletView
unfolding given or_not_found by_user_id
get_wallet_by_user user rows = do
  id ← given (value_error "user_id is required") user
  or_not_found (wallet_not_found none (some id)) (by_user_id id rows)

-- `get_wallet_balance`
unfoldable pub get_wallet_balance : Option Uuid → Dict WalletRow → Result ℤ
unfolding given or_not_found get_balance
get_wallet_balance wallet rows = do
  id ← given (value_error "wallet_id is required") wallet
  or_not_found (wallet_not_found (some id) none) (get_balance id rows)

-- `wallet_exists`
unfoldable pub wallet_exists : Option Uuid → Dict WalletRow → Result Bool
unfolding given exists
wallet_exists wallet rows = do
  id ← given (value_error "wallet_id is required") wallet
  ok (exists id rows)
