-- ===== src/Views/Found.antt =====
-- What the query views answer, by the table of wallets.
use microservice_wallet_serv.Base.{
  ◌≡◌, refl, inl, inr, Bool, true, false, Option, none, some, Option-cases, List, [], ◌∷◌, arith,
}
use microservice_wallet_serv.Base.Dict.{Dict, lookup}
use microservice_wallet_serv.Errors.{Uuid, Result, ok, wallet_not_found, is_wallet_not_found, ◌>>=◌}
use microservice_wallet_serv.ReadModel.{WalletRow}
use microservice_wallet_serv.Queries.{
  WalletView, view, by_id, get_balance, exists, of_user, the_one, by_user_id, or_not_found, given,
  get_wallet, get_wallet_by_user, get_wallet_balance, wallet_exists,
}
use microservice_wallet_serv.Queries.Owner.{
  UserClient, owner_of, get_wallet_with_owner, get_wallet_by_user_with_owner, wallet_balance,
  has_wallet,
}
use microservice_wallet_serv.Views.Query.{
  QueryResponse, QueryContent, error, wallet_and_owner, balance, query_failure, query_respond,
  serve_query, wallet_view, user_wallet_view, balance_view, exists_view,
}
use microservice_wallet_serv.Views.Query

-- the answer to a GET for a wallet by its id: what is shown of the row, or 404
unfoldable pub by_row : (WalletRow → QueryContent) → Option WalletRow → QueryResponse
by_row show none = record { status = 404; content = error "Wallet not found" }
by_row show (some row) = record { status = 200; content = show row }

-- the answer to a GET for the wallet of a user
unfoldable pub by_views : UserClient → List WalletView → QueryResponse
by_views users [] = record { status = 404; content = error "Wallet not found for user" }
by_views users (v ∷ []) = record { status = 200; content = wallet_and_owner (owner_of users v) }
by_views users (v ∷ w ∷ vs) = record { status = 404; content = error "Wallet not found for user" }

unfoldable pub is_found : Option WalletRow → Bool
is_found none = false
is_found (some _) = true

user_wallet_view-by_views :
    (users : UserClient) (user : Uuid) (rows : Dict WalletRow)
    → user_wallet_view users true user rows ≡ by_views users (of_user user rows)
unfolding user_wallet_view serve_query query_respond query_failure get_wallet_by_user_with_owner
    get_wallet_by_user by_user_id given or_not_found is_wallet_not_found by_views the_one
user_wallet_view-by_views users user rows = helper (of_user user rows)
  where
    answered : List WalletView → Result WalletView
    answered vs = or_not_found (wallet_not_found none (some user)) (the_one user vs)

    shown : Result WalletView → QueryResponse
    shown r =
        query_respond "Wallet not found for user" wallet_and_owner
          (or_not_found (wallet_not_found none (some user)) r >>= λ v. ok (owner_of users v))

    helper : (vs : List WalletView) → shown (answered vs) ≡ by_views users vs
    helper [] = refl
    helper (v ∷ []) = refl
    helper (v ∷ w ∷ vs) = refl

-- For any user service, a GET of a wallet by its id, of its balance and of its existence are answered
-- alike by the table: with the row's wallet and owner, its balance, and `true` where the table has
-- the id, and else with 404, 404 and `false`. A GET by a user is answered with the user's wallet
-- if there is exactly one, and else with 404. Status 500 is never answered.
pub query_views_lem :
    (users : UserClient) (id user : Uuid) (rows : Dict WalletRow)
    → (wallet_view users true id rows
        ≡ by_row (λ row. wallet_and_owner (owner_of users (view id row))) (lookup id rows))
      × (balance_view true id rows ≡ by_row (λ row. balance row.balance) (lookup id rows))
      × (exists_view true id rows
          ≡ record { status = 200; content = Query.exists (is_found (lookup id rows)) })
      × (user_wallet_view users true user rows ≡ by_views users (of_user user rows))
unfolding wallet_view balance_view exists_view serve_query query_respond query_failure by_row
    is_found get_wallet_with_owner get_wallet wallet_balance get_wallet_balance get_balance by_id
    given or_not_found is_wallet_not_found has_wallet wallet_exists exists
query_views_lem users id user rows = elim (Option-cases (lookup id rows)) [
  | inl missing ↦ (
    ground (arith, missing),
    ground (arith, missing),
    ground (arith, missing),
    user_wallet_view-by_views users user rows,
  )
  | inr (row, found) ↦ (
    ground (arith, found),
    ground (arith, found),
    ground (arith, found),
    user_wallet_view-by_views users user rows,
  )
]
