-- ===== src/Rabbit/Effects.antt =====
-- What a booking command does to the store, through the handlers of booking_command_handlers.py over
-- the wallet's command handler and query handler.
use microservice_wallet_serv.Base.{◌≡◌, refl, ap, ◌∙◌, Option, some}
use microservice_wallet_serv.Base.Dict.{Dict}
use microservice_wallet_serv.Errors.{Uuid, Result, ok, err}
use microservice_wallet_serv.Errors.Exec.{Exec, pure, lift, catch_all-state, ◌>>=◌}
use microservice_wallet_serv.Decimal.{Decimal}
use microservice_wallet_serv.Event.Json.{Codec, str}
use microservice_wallet_serv.ReadModel.{WalletRow}
use microservice_wallet_serv.Queries.{WalletView, get_wallet_by_user}
use microservice_wallet_serv.Queries.Owner.{
  UserClient, WalletResponse, get_wallet_by_user_with_owner,
}
use microservice_wallet_serv.Queries.Answers.{owner_never_matters, wallet_of}
use microservice_wallet_serv.Handler
use microservice_wallet_serv.Handler.{CommandService}
use microservice_wallet_serv.Event.Untyped.{decimal_of_str, decimal_of_str-decimal_str}
use microservice_wallet_serv.Rabbit.{AclFields, request_payment, request_refund}
use microservice_wallet_serv.Rabbit.Booking.{
  Context, default_context, dispatch_wallet_command, command_handler, handle_payment, handle_refund,
  try_payment, try_refund, or_log,
}

-- a bind onto a step that returns leaves the state of its first part
pure-state : {S A B : Type 0} (m : Exec S A) (b : B) (s : S) → ((m >>= λ _. pure b) s).1 ≡ (m s).1
pure-state {S} {A} {B} m b s = helper (m s)
  where
    continue : Result A × S → Result B × S
    continue (r, t) = elim r [ ok a ↦ (ok b, t) | err e ↦ (err e, t) ]

    helper : (p : Result A × S) → (continue p).1 ≡ p.1
    helper (ok a, t) = refl
    helper (err e, t) = refl

or_log-state :
    {S : Type 0} (C : Codec) (ctx : Context S) (m : Exec S WalletView) (s : S)
    → (or_log C ctx m s).1 ≡ (m s).1
unfolding or_log
or_log-state C ctx m s = catch_all-state (m >>= λ _. pure tt) tt s ∙ pure-state m tt s

-- a call of the command handler on the wallet that the query handler found, if it found one
abbrev pub on_wallet : {S : Type 0} → Result WalletView → (WalletView → S) → S → S
on_wallet (ok v) call s = call v
on_wallet (err _) call s = s

module _ {S : Type 0} (C : Codec) (commands : CommandService S)
    (get_wallet : Option Uuid → Exec S WalletView) (users : UserClient)
    (rows : S → Dict WalletRow) where
  abbrev context : Context S
  context = default_context commands get_wallet users rows

  abbrev attempt :
      (Option Uuid → Decimal → Option Uuid → Exec S WalletView) → AclFields → Exec S WalletView
  attempt call cmd = context.get_wallet_by_user_with_owner cmd.client_id >>= λ found.
      lift (decimal_of_str C (str (C.decimal_str cmd.amount))) >>= λ amount.
      call (some found.wallet.wallet_id) amount (some cmd.booking_id)

  attempt-state :
      (call : Option Uuid → Decimal → Option Uuid → Exec S WalletView) (cmd : AclFields) (s : S)
      → (attempt call cmd s).1
        ≡ on_wallet
            (get_wallet_by_user (some cmd.client_id) (rows s))
            (λ v. (call (some v.wallet_id) cmd.amount (some cmd.booking_id) s).1)
            s
  unfolding default_context
  attempt-state call cmd s =
      helper (get_wallet_by_user_with_owner users cmd.client_id (rows s))
      ∙ ap (λ r. on_wallet r run s)
          (owner_never_matters users cmd.client_id cmd.client_id (rows s)).1
    where
      run : WalletView → S
      run v = (call (some v.wallet_id) cmd.amount (some cmd.booking_id) s).1

      continue : Result WalletResponse → Result WalletView × S
      continue r = elim r [
        | ok found ↦
            (lift (decimal_of_str C (str (C.decimal_str cmd.amount))) >>= λ amount.
            call (some found.wallet.wallet_id) amount (some cmd.booking_id))
              s
        | err e ↦ (err e, s)
      ]

      helper : (r : Result WalletResponse) → (continue r).1 ≡ on_wallet (wallet_of r) run s
      helper (ok found) = rw (decimal_of_str-decimal_str C cmd.amount) refl
      helper (err e) = refl

  -- Through the handlers that the service is wired with, a payment or refund command does to the
  -- store exactly what the command handler's `pay_with_wallet` or `refund` does, called with the
  -- command's amount and booking and the id of the client's wallet; where the client has no
  -- wallet, or more than one, it does nothing. What the user service answers plays no part.
  pub dispatch_effect :
      (cmd : AclFields) (s : S)
      → ((dispatch_wallet_command C context (request_payment cmd) s).1
          ≡ on_wallet
              (get_wallet_by_user (some cmd.client_id) (rows s))
              (λ v.
                (Handler.pay_with_wallet commands get_wallet
                  (some v.wallet_id)
                  cmd.amount
                  (some cmd.booking_id)
                  s).1)
              s)
        × ((dispatch_wallet_command C context (request_refund cmd) s).1
            ≡ on_wallet
                (get_wallet_by_user (some cmd.client_id) (rows s))
                (λ v.
                  (Handler.refund commands get_wallet
                    (some v.wallet_id)
                    cmd.amount
                    (some cmd.booking_id)
                    s).1)
                s)
  unfolding dispatch_wallet_command command_handler handle_payment handle_refund try_payment
      try_refund default_context
  dispatch_effect cmd s = (
    or_log-state C context (try_payment C context cmd) s
        ∙ attempt-state (Handler.pay_with_wallet commands get_wallet) cmd s,
    or_log-state C context (try_refund C context cmd) s
        ∙ attempt-state (Handler.refund commands get_wallet) cmd s,
  )
