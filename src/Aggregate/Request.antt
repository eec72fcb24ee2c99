-- ===== src/Aggregate/Request.antt =====
-- A call of a command method of `WalletAggregate`, with its arguments.
use microservice_wallet_serv.Base.{Option}
use microservice_wallet_serv.Base.Text.{Text}
use microservice_wallet_serv.Errors.{Uuid}
use microservice_wallet_serv.Decimal.{Decimal}

pub data Operation : Type 0 where
  deposit withdraw : Decimal → Option Uuid → Operation
  pay_with_wallet : Decimal → Uuid → Operation
  refund : Decimal → Option Uuid → Operation
  adjustment : Decimal → Text → Option Uuid → Operation
  suspend activate close : Operation
