-- ===== src/Rabbit/Booking.antt =====
-- messaging/rabbitMQ/command_handlers/booking_command_handlers.py, with the handlers' base class and
-- their context in base_handler.py. What they log is not modelled.
use microservice_wallet_serv.Base.{Option, none, some}
use microservice_wallet_serv.Errors.{Uuid, runtime_error}
use microservice_wallet_serv.Errors.Exec.{Exec, pure, raise, lift, catch, ◌>>=◌}
use microservice_wallet_serv.Base.Dict.{Dict}
use microservice_wallet_serv.Decimal.{Decimal}
use microservice_wallet_serv.Event.Json.{Codec, str}
use microservice_wallet_serv.ReadModel.{WalletRow}
use microservice_wallet_serv.Queries.{WalletView}
use microservice_wallet_serv.Queries.Owner.{
  UserClient, WalletResponse, get_wallet_by_user_with_owner,
}
use microservice_wallet_serv.Handler
use microservice_wallet_serv.Handler.{CommandService}
use microservice_wallet_serv.Event.Untyped.{decimal_of_str}
use microservice_wallet_serv.Rabbit.{AclCommand, AclFields, request_payment, request_refund}

-- `BaseCommandHandlerContext`: of the command handler and the query handler, the methods used here
pub record Context (S : Type 0) : Type 0 where
  pub get_wallet_by_user_with_owner : Uuid → Exec S WalletResponse
  pub pay_with_wallet : Option Uuid → Decimal → Option Uuid → Exec S WalletView
  pub refund : Option Uuid → Decimal → Option Uuid → Exec S WalletView

-- `BaseCommandHandler`: its `handle` takes any command
abbrev pub CommandHandler : Type 0 → Type 0
CommandHandler S = AclCommand → Exec S (Unit {0})

module _ {S : Type 0} (C : Codec) (ctx : Context S) where
  -- the four `except` clauses of a handler log, and raise nothing
  unfoldable pub or_log : Exec S WalletView → Exec S (Unit {0})
  or_log m = catch (do v ← m; pure tt) λ _. pure tt

  -- the `try` of `RequestPaymentHandler.handle`
  unfoldable pub try_payment : AclFields → Exec S WalletView
  unfolding decimal_of_str
  try_payment cmd = do
    found ← ctx.get_wallet_by_user_with_owner cmd.client_id
    amount ← lift (decimal_of_str C (str (C.decimal_str cmd.amount)))
    ctx.pay_with_wallet (some found.wallet.wallet_id) amount (some cmd.booking_id)

  -- `RequestPaymentHandler.handle`
  unfoldable pub handle_payment : CommandHandler S
  unfolding or_log try_payment
  handle_payment (request_payment cmd) = or_log (try_payment cmd)
  handle_payment (request_refund _) = pure tt

  -- the `try` of `RequestRefundHandler.handle`
  unfoldable pub try_refund : AclFields → Exec S WalletView
  unfolding decimal_of_str
  try_refund cmd = do
    found ← ctx.get_wallet_by_user_with_owner cmd.client_id
    amount ← lift (decimal_of_str C (str (C.decimal_str cmd.amount)))
    ctx.refund (some found.wallet.wallet_id) amount (some cmd.booking_id)

  -- `RequestRefundHandler.handle`
  unfoldable pub handle_refund : CommandHandler S
  unfolding or_log try_refund
  handle_refund (request_refund cmd) = or_log (try_refund cmd)
  handle_refund (request_payment _) = pure tt

  -- `WALLET_COMMAND_HANDLERS.get(type(command))`
  unfoldable pub command_handler : AclCommand → Option (CommandHandler S)
  unfolding handle_payment handle_refund
  command_handler (request_payment _) = some handle_payment
  command_handler (request_refund _) = some handle_refund

  -- `dispatch_wallet_command` of consumer.py
  unfoldable pub dispatch_wallet_command : CommandHandler S
  unfolding command_handler
  dispatch_wallet_command c = elim (command_handler c) [
    | some handle ↦ handle c
    | none ↦ raise (runtime_error "No handler registered for command")
  ]

-- `_default_ctx`: the handlers of application/wallet, over a store with the table of wallets
unfoldable pub default_context :
    {S : Type 0}
    → CommandService S
    → (Option Uuid → Exec S WalletView)
    → UserClient
    → (S → Dict WalletRow)
    → Context S
unfolding Handler.pay_with_wallet Handler.refund get_wallet_by_user_with_owner
default_context commands get_wallet users rows = record {
  get_wallet_by_user_with_owner = λ user s. (get_wallet_by_user_with_owner users user (rows s), s);
  pay_with_wallet = Handler.pay_with_wallet commands get_wallet;
  refund = Handler.refund commands get_wallet;
}
