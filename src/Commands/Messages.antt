-- ===== src/Commands/Messages.antt =====
-- The classes of domain/apps/wallet/commands.py, and what their construction checks.
use microservice_wallet_serv.Base.{ℕ, Bool, true, false, not, Option, none, some, List, [], ◌∷◌}
use microservice_wallet_serv.Base.Text.{Text}
use microservice_wallet_serv.Errors.{Uuid, Result, ok, err, value_error, ◌>>=◌, ◌>>◌, raise_if}
use microservice_wallet_serv.Decimal.{Decimal}
use microservice_wallet_serv.Event.Json.{Json}
use microservice_wallet_serv.Commands.{
  Pydantic, Timestamp, currency_of, normalize_currency, ensure_utc, check_amount,
  check_adjustment_amount, check_reason, check_keys,
}

-- an amount with its currency
pub record Money : Type 0 where
  pub amount : Decimal
  pub currency : Text

-- The classes with their own fields, a default filled in: the wallet's id first, then the user's, the admin's or the
-- action's, then the money, then the other ids and the texts.
pub data CommandBody : Type 0 where
  create_wallet : Uuid → Text → CommandBody
  activate_wallet : Uuid → CommandBody
  suspend_wallet close_wallet : Uuid → Option Text → CommandBody
  deposit_into_wallet withdraw_from_wallet :
      Uuid → Uuid → Money → Option Uuid → Option Text → CommandBody
  pay_with_wallet : Uuid → Uuid → Uuid → Money → Option Text → CommandBody
  refund_to_wallet : Uuid → Uuid → Money → Option Uuid → Option Text → CommandBody
  adjust_wallet_balance : Uuid → Uuid → Money → Text → CommandBody
  reserve_wallet_funds : Uuid → Uuid → Uuid → Money → CommandBody
  release_wallet_funds : Uuid → Uuid → Money → CommandBody
  complete_wallet_saga : Uuid → Uuid → CommandBody
  fail_wallet_saga : Uuid → Uuid → Text → CommandBody
  start_wallet_compensation complete_wallet_compensation expire_wallet_reservation :
      Uuid → Uuid → CommandBody
  update_wallet_metadata : Uuid → List (Text × Json) → CommandBody

-- `DomainCommand` with a class of the wallet's
pub record WalletCommand : Type 0 where
  pub correlation_id : Option Uuid
  pub timestamp : Timestamp
  pub body : CommandBody

-- a constraint that fails
unfoldable pub require : Bool → Result (Unit {0})
require b = raise_if (not b) (value_error "ValidationError")

module _ (P : Pydantic) where
  open P use {amount_fits, length_fits}

  -- `Optional[constr(max_length=…)]`
  unfoldable pub check_optional : ℕ → Option Text → Result (Unit {0})
  unfolding require
  check_optional hi none = ok tt
  check_optional hi (some s) = require (length_fits 0 hi s)

  -- a positive amount with its currency
  unfoldable pub check_money : Money → Result Money
  unfolding require check_amount currency_of
  check_money m = do
    require (amount_fits true m.amount)
    amount ← check_amount m.amount
    currency ← currency_of m.currency
    ok (record { amount = amount; currency = currency })

  -- the amount of an adjustment, which may be negative
  unfoldable pub check_adjustment : Money → Result Money
  unfolding require check_adjustment_amount currency_of
  check_adjustment m = do
    require (amount_fits false m.amount)
    amount ← check_adjustment_amount m.amount
    currency ← currency_of m.currency
    ok (record { amount = amount; currency = currency })

  -- a required text with its length, stripped
  unfoldable pub check_text : ℕ → Text → Result Text
  unfolding require check_reason
  check_text hi s = do require (length_fits 1 hi s); check_reason s

  unfoldable pub check_body : CommandBody → Result CommandBody
  unfolding check_money check_adjustment check_optional check_text normalize_currency check_keys
  check_body (create_wallet u c) = do c' ← normalize_currency c; ok (create_wallet u c')
  check_body (activate_wallet w) = ok (activate_wallet w)
  check_body (suspend_wallet w r) = do check_optional 500 r; ok (suspend_wallet w r)
  check_body (close_wallet w r) = do check_optional 500 r; ok (close_wallet w r)
  check_body (deposit_into_wallet w u m r d) = do
    m' ← check_money m
    check_optional 500 d
    ok (deposit_into_wallet w u m' r d)
  check_body (withdraw_from_wallet w u m r d) = do
    m' ← check_money m
    check_optional 500 d
    ok (withdraw_from_wallet w u m' r d)
  check_body (pay_with_wallet w u a m d) = do
    m' ← check_money m
    check_optional 500 d
    ok (pay_with_wallet w u a m' d)
  check_body (refund_to_wallet w u m a r) = do
    m' ← check_money m
    check_optional 300 r
    ok (refund_to_wallet w u m' a r)
  check_body (adjust_wallet_balance w a m r) = do
    m' ← check_adjustment m
    r' ← check_text 300 r
    ok (adjust_wallet_balance w a m' r')
  check_body (reserve_wallet_funds w u a m) = do
    m' ← check_money m
    ok (reserve_wallet_funds w u a m')
  check_body (release_wallet_funds w a m) = do m' ← check_money m; ok (release_wallet_funds w a m')
  check_body (complete_wallet_saga w a) = ok (complete_wallet_saga w a)
  check_body (fail_wallet_saga w a r) = do r' ← check_text 500 r; ok (fail_wallet_saga w a r')
  check_body (start_wallet_compensation w a) = ok (start_wallet_compensation w a)
  check_body (complete_wallet_compensation w a) = ok (complete_wallet_compensation w a)
  check_body (expire_wallet_reservation w a) = ok (expire_wallet_reservation w a)
  check_body (update_wallet_metadata w []) = err (value_error "ValidationError")
  check_body (update_wallet_metadata w (f ∷ fs)) = do
    check_keys (f ∷ fs)
    ok (update_wallet_metadata w (f ∷ fs))

  -- the construction of a command
  unfoldable pub construct : WalletCommand → Result WalletCommand
  unfolding ensure_utc check_body
  construct c = do
    at ← ensure_utc c.timestamp
    body ← check_body c.body
    ok (record { correlation_id = c.correlation_id; timestamp = at; body = body })
