-- ===== src/Views/Statuses.antt =====
-- Which statuses the views answer.
use microservice_wallet_serv.Base.{[], ℕ, ◌≡◌, refl, not, Option, none, some, arith, if◌then◌else◌}
use microservice_wallet_serv.Errors.{Uuid, Result, ok, err}
use microservice_wallet_serv.Errors.Exec.{Exec}
use microservice_wallet_serv.Decimal.{nan}
use microservice_wallet_serv.Queries.{WalletView}
use microservice_wallet_serv.Handler
use microservice_wallet_serv.Handler.{CommandService}
use microservice_wallet_serv.Handler.Wrapping.{IsSafe, IsDomainOnly, methods-IsSafe}
use microservice_wallet_serv.Views.{
  Request, is_authenticated, failure, respond, serve, suspend_view, activate_view, close_view,
}

-- the status by the request and the outcome of the handler's method
abbrev pub expected : {A : Type 0} → Request → Result A → ℕ
expected request r =
    if not request.is_post
    then 405
    else if not (is_authenticated request)
    then 401
    else elim r [ ok _ ↦ 200 | err _ ↦ 400 ]

respond_status :
    (r : Result WalletView)
    → IsDomainOnly r
    → (respond r).status ≡ elim r [ ok _ ↦ 200 | err _ ↦ 400 ]
unfolding respond failure IsDomainOnly
respond_status (ok v) safe = refl
respond_status (err e) safe = rw safe refl

serve_status :
    {S : Type 0} (call : Exec S WalletView) (request : Request) (s : S)
    → IsSafe call
    → (serve call request s).0.status ≡ expected request (call s).0
unfolding serve IsSafe
serve_status call request s safe = ground (arith, respond_status (call s).0 (safe s))

-- For any services, the three views answer 405 to a request that is no POST, else 401 without a
-- user, else 200 when the handler's method returns and 400 when it raises. So they never answer the
-- statuses 404 and 500, which they have clauses for.
pub views_status :
    {S : Type 0} (commands : CommandService S) (get_wallet : Option Uuid → Exec S WalletView)
    (request : Request) (id : Uuid) (s : S)
    → ((suspend_view commands get_wallet request id s).0.status
        ≡ expected request (Handler.suspend_wallet commands get_wallet (some id) s).0)
      × ((activate_view commands get_wallet request id s).0.status
          ≡ expected request (Handler.activate_wallet commands get_wallet (some id) s).0)
      × ((close_view commands get_wallet request id s).0.status
          ≡ expected request (Handler.close_wallet commands get_wallet (some id) s).0)
unfolding suspend_view activate_view close_view
views_status commands get_wallet request id s =
    let (_, _, _, _, _, _, suspend, activate, close) =
      methods-IsSafe commands get_wallet none (some id) none [] [] nan in
    (
      serve_status (Handler.suspend_wallet commands get_wallet (some id)) request s suspend,
      serve_status (Handler.activate_wallet commands get_wallet (some id)) request s activate,
      serve_status (Handler.close_wallet commands get_wallet (some id)) request s close,
    )
