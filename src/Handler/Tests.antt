-- ===== src/Handler/Tests.antt =====
-- The handler's theorem with a command service that raises, and a query service that finds nothing.
use microservice_wallet_serv.Base.{ℕ, Option, false, none, some}
use microservice_wallet_serv.Base.Int.{negsuc}
use microservice_wallet_serv.Base.Text.{text}
use microservice_wallet_serv.Errors.{Uuid, other, value_error, wallet_closed, wallet_not_found}
use microservice_wallet_serv.Errors.Exec.{Exec, raise, pure}
use microservice_wallet_serv.Decimal.{Decimal, finite}
use microservice_wallet_serv.Queries.{WalletView}
use microservice_wallet_serv.Handler
use microservice_wallet_serv.Handler.{CommandService}
use microservice_wallet_serv.Handler.Wrapping.{IsSafe, methods-IsSafe}

abbrev failing : CommandService ℕ
failing = record {
  create_wallet = λ _ _ _. raise (other "DatabaseError");
  deposit = λ _ _ _. raise (value_error "wallet_id is required");
  withdraw = λ _ _ _. raise (wallet_closed 7 "withdraw");
  pay_with_wallet = λ _ _ _. pure tt;
  refund = λ _ _ _. pure tt;
  adjustment = λ _ _ _ _. pure tt;
  suspend_wallet = λ _. pure tt;
  activate_wallet = λ _. pure tt;
  close_wallet = λ _. raise (other "OSError");
}

abbrev price : Decimal
price = finite false 1250 (negsuc 1)

abbrev find : Option Uuid → Exec ℕ WalletView
find id = raise (wallet_not_found id none)

methods-IsSafe_example :
    IsSafe (Handler.create_wallet failing find (some 3) (text "USD") (some 7))
    × IsSafe (Handler.deposit failing find (some 7) price none)
    × IsSafe (Handler.withdraw failing find (some 7) price none)
    × IsSafe (Handler.pay_with_wallet failing find (some 7) price none)
    × IsSafe (Handler.refund failing find (some 7) price none)
    × IsSafe (Handler.adjustment failing find (some 7) price (text "fee") none)
    × IsSafe (Handler.suspend_wallet failing find (some 7))
    × IsSafe (Handler.activate_wallet failing find (some 7))
    × IsSafe (Handler.close_wallet failing find (some 7))
methods-IsSafe_example =
    methods-IsSafe failing find (some 3) (some 7) none (text "USD") (text "fee") price
