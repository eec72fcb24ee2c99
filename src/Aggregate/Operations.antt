-- ===== src/Aggregate/Operations.antt =====
-- The command methods of `WalletAggregate`. Each checks its arguments, then the state, and only
-- then applies an event.
use microservice_wallet_serv.Base.{String, Bool, true, false, not, Option, some, if◌then◌else◌}
use microservice_wallet_serv.Base.Text.{Text, same_text, is_truthy, upper, strip}
use microservice_wallet_serv.Errors.{
  Uuid, value_error, wallet_closed, wallet_suspended, invalid_wallet_currency,
}
use microservice_wallet_serv.Errors.Exec.{Exec, pure, raise_if, gets, modify, lift, ◌>>=◌, ◌>>◌}
use microservice_wallet_serv.Decimal.{Decimal, le_zero, is_zero, abs}
use microservice_wallet_serv.Event.{Body, deposited, withdrawn, payment_made, refunded, adjusted}
use microservice_wallet_serv.Event.Serial.{Fresh}
use microservice_wallet_serv.Aggregate.Request.{Operation}
use microservice_wallet_serv.Aggregate.{WalletStatus, WalletAggregate, new_event, apply}

-- a method that returns nothing
abbrev pub Method : Type 0
Method = Exec WalletAggregate (Unit {0})

-- `self._apply(…Event(…))`
unfoldable pub emit : Fresh → (WalletAggregate → Body) → Method
unfolding apply new_event
emit fresh body = modify (λ a. apply (new_event fresh a (body a)) a)

unfoldable pub is_active : WalletStatus → Bool
is_active WalletStatus.active = true
is_active _ = false

unfoldable pub is_suspended : WalletStatus → Bool
is_suspended WalletStatus.suspended = true
is_suspended _ = false

unfoldable pub is_closed : WalletStatus → Bool
is_closed WalletStatus.closed = true
is_closed _ = false

unfoldable pub ensure_active : String → Method
unfolding is_closed is_suspended
ensure_active operation = do
  a ← gets (λ s. s)
  raise_if (is_closed a.status) (wallet_closed a.wallet_id operation)
  raise_if (is_suspended a.status) (wallet_suspended a.wallet_id operation)

unfoldable pub ensure_currency_match : Text → Method
ensure_currency_match amount_currency = do
  a ← gets (λ s. s)
  raise_if (not (same_text (upper amount_currency) a.currency))
      (invalid_wallet_currency a.wallet_id)

-- the two checks that every balance operation makes, on the aggregate's own currency
unfoldable pub ensure_usable : String → Method
unfolding ensure_active ensure_currency_match
ensure_usable operation = do
  ensure_active operation
  currency ← gets (λ a. a.currency)
  ensure_currency_match currency

-- `if amount <= Decimal("0"): raise ValueError(…)`
unfoldable pub ensure_positive : Decimal → String → Method
ensure_positive amount message = do low ← lift (le_zero amount); raise_if low (value_error message)

unfoldable pub deposit : Fresh → Decimal → Option Uuid → Method
unfolding ensure_positive ensure_usable emit
deposit fresh amount reference = do
  ensure_positive amount "Deposit amount must be positive"
  ensure_usable "deposit"
  emit fresh (λ a. deposited amount a.currency reference)

unfoldable pub withdraw : Fresh → Decimal → Option Uuid → Method
unfolding ensure_positive ensure_usable emit
withdraw fresh amount reference = do
  ensure_positive amount "Withdrawal amount must be positive"
  ensure_usable "withdraw"
  emit fresh (λ a. withdrawn amount a.currency reference)

unfoldable pub pay_with_wallet : Fresh → Decimal → Uuid → Method
unfolding ensure_positive ensure_usable emit
pay_with_wallet fresh amount booking = do
  ensure_positive amount "Payment amount must be positive"
  ensure_usable "pay_with_wallet"
  emit fresh (λ a. payment_made amount a.currency (some booking))

unfoldable pub refund : Fresh → Decimal → Option Uuid → Method
unfolding ensure_positive ensure_usable emit
refund fresh amount booking = do
  ensure_positive amount "Refund amount must be positive"
  ensure_usable "refund"
  emit fresh (λ a. refunded amount a.currency booking)

unfoldable pub adjustment : Fresh → Decimal → Text → Option Uuid → Method
unfolding ensure_usable emit
adjustment fresh amount reason admin = do
  raise_if (is_zero amount) (value_error "Adjustment amount cannot be zero")
  raise_if (not (is_truthy (strip reason))) (value_error "Adjustment reason is required")
  ensure_usable "adjustment"
  emit fresh (λ a. adjusted (abs amount) a.currency (strip reason) admin)

unfoldable pub suspend : Fresh → Method
unfolding emit is_closed is_suspended
suspend fresh = do
  a ← gets (λ s. s)
  raise_if (is_closed a.status) (wallet_closed a.wallet_id "suspend")
  if is_suspended a.status then pure tt else emit fresh (λ _. Body.suspended)

unfoldable pub activate : Fresh → Method
unfolding emit is_closed is_active
activate fresh = do
  a ← gets (λ s. s)
  raise_if (is_closed a.status) (wallet_closed a.wallet_id "activate")
  if is_active a.status then pure tt else emit fresh (λ _. Body.activated)

unfoldable pub close : Fresh → Method
unfolding emit is_closed
close fresh = do
  a ← gets (λ s. s)
  if is_closed a.status then pure tt else emit fresh (λ _. Body.closed)

-- the call of the method that a request names
unfoldable pub perform : Fresh → Operation → Method
unfolding deposit withdraw pay_with_wallet refund adjustment suspend activate close
perform fresh (Operation.deposit amount reference) = deposit fresh amount reference
perform fresh (Operation.withdraw amount reference) = withdraw fresh amount reference
perform fresh (Operation.pay_with_wallet amount booking) = pay_with_wallet fresh amount booking
perform fresh (Operation.refund amount booking) = refund fresh amount booking
perform fresh (Operation.adjustment amount reason admin) = adjustment fresh amount reason admin
perform fresh Operation.suspend = suspend fresh
perform fresh Operation.activate = activate fresh
perform fresh Operation.close = close fresh
