-- ===== src/Queries/Answers.antt =====
-- What the queries answer: wallet_query_handler.py over wallet_query_services.py and
-- wallet_query_repo.py, on tables that projector.py has written.
use mathlib.Core.List.{foldl}
use microservice_wallet_serv.Base.{
  ℕ, ◌≡◌, refl, ap, inl, inr, true, none, some, Option-cases, List, arith,
}
use microservice_wallet_serv.Base.Int.{ℤ}
use microservice_wallet_serv.Base.Dict.{Dict, lookup}
use microservice_wallet_serv.Errors.{
  Uuid, PyError, Result, ok, err, wallet_not_found, is_wallet_not_found, Result-cases, ◌>>=◌,
}
use microservice_wallet_serv.Event.{WalletEvent}
use microservice_wallet_serv.ReadModel.{WalletRow, ReadSide}
use microservice_wallet_serv.ReadModel.Ledger.{
  project_all, balance_of, ledger_entry, project_all-ledger,
}
use microservice_wallet_serv.Queries.{
  WalletView, by_id, by_user_id, get_balance, or_not_found, given, get_wallet, get_wallet_by_user,
  get_wallet_balance,
}
use microservice_wallet_serv.Queries.Owner.{
  UserClient, WalletResponse, owner_of, get_wallet_with_owner, get_wallet_by_user_with_owner,
  wallet_balance,
}

-- the wallet in an answer
abbrev pub wallet_of : Result WalletResponse → Result WalletView
wallet_of (ok r) = ok r.wallet
wallet_of (err e) = err e

owner_of_wallet : (users : UserClient) (v : WalletView) → (owner_of users v).wallet ≡ v
unfolding owner_of
owner_of_wallet users v = elim (Result-cases (users v.user_id)) [
  | inl (_, found) ↦ rw (owner_of, found) refl
  | inr (_, failed) ↦ rw (owner_of, failed) refl
]

-- two layers of translation and the owner, on an answer of the repository
wallet_of-answer :
    (users : UserClient) (e : PyError) (r : Result WalletView)
    → is_wallet_not_found e ≡ true
    → wallet_of (or_not_found e (or_not_found e r) >>= λ v. ok (owner_of users v))
      ≡ or_not_found e r
unfolding or_not_found
wallet_of-answer users e (ok v) missing = ap ok (owner_of_wallet users v)
wallet_of-answer users e (err x) missing = ground arith

-- Whatever the user service answers, and when its client raises too, the handler's two queries with
-- an owner give the same wallet, or the same exception, as the query service does without it.
pub owner_never_matters :
    (users : UserClient) (id user : Uuid) (rows : Dict WalletRow)
    → (wallet_of (get_wallet_with_owner users id rows) ≡ get_wallet (some id) rows)
      × (wallet_of (get_wallet_by_user_with_owner users user rows)
          ≡ get_wallet_by_user (some user) rows)
unfolding get_wallet_with_owner get_wallet_by_user_with_owner get_wallet get_wallet_by_user given
    is_wallet_not_found
owner_never_matters users id user rows = (
  wallet_of-answer users (wallet_not_found (some id) none) (by_id id rows) refl,
  wallet_of-answer users (wallet_not_found none (some user)) (by_user_id user rows) refl,
)

-- When a stream of events has been projected without an exception and the query handler then
-- answers a wallet's balance, the answer is the ledger of the stream: from the balance before, as
-- each event of the wallet in turn changes it.
pub balance_answers_ledger :
    (es : List (ℕ × WalletEvent)) (s : ReadSide) (id : Uuid) (balance : ℤ)
    → (project_all es s).0 ≡ ok tt
    → wallet_balance id (project_all es s).1.wallets ≡ ok balance
    → balance ≡ foldl (ledger_entry id) (balance_of s id) es
unfolding wallet_balance get_wallet_balance get_balance given or_not_found balance_of
balance_answers_ledger es s id balance accepted answered =
    elim (Option-cases (lookup id (project_all es s).1.wallets)) [
      | inl missing ↦ absurd (ground arith)
      | inr (row, found) ↦ ground (arith, project_all-ledger es s id accepted)
    ]
