-- ===== src/ReadModel/Projector.antt =====
-- `WalletProjector`. `now` is the time that `auto_now` and `auto_now_add` columns take.
use microservice_wallet_serv.Base.{
  ℕ, zero, suc, String, Bool, true, Option, none, some, if◌then◌else◌,
}
use microservice_wallet_serv.Base.Int.{pos, ◌+ℤ◌, ◌-ℤ◌, leb_ℤ}
use microservice_wallet_serv.Base.Text.{Text, upper}
use microservice_wallet_serv.Base.Dict.{lookup}
use microservice_wallet_serv.Errors.{Uuid, projection_violation}
use microservice_wallet_serv.Errors.Exec.{Exec, pure, raise, gets, lift, atomic, ◌>>=◌, ◌>>◌}
use microservice_wallet_serv.Decimal.{Decimal, quantize, validate_amount}
use microservice_wallet_serv.Event.{
  Body, created, deposited, withdrawn, payment_made, refunded, adjusted, WalletEvent,
}
use microservice_wallet_serv.Aggregate.{WalletStatus}
use microservice_wallet_serv.ReadModel.{WalletRow, ReadSide, status_name, save_row}

abbrev pub Projection : Type 0
Projection = Exec ReadSide (Unit {0})

-- `filter(id=…, …).update(…)`: the number of rows that matched
abbrev matched :
    Uuid → (WalletRow → Bool) → (WalletRow → WalletRow) → Option WalletRow → Exec ReadSide ℕ
matched id test change none = pure 0
matched id test change (some row) =
    if test row then (do save_row id (change row); pure 1) else pure 0

unfoldable pub update_where : Uuid → (WalletRow → Bool) → (WalletRow → WalletRow) → Exec ReadSide ℕ
unfolding save_row
update_where id test change s = matched id test change (lookup id s.wallets) s

-- `if updated == 0: raise ProjectionInvariantViolation(…)`
unfoldable pub require_updated : String → Uuid → ℕ → Projection
require_updated name id zero = raise (projection_violation name id)
require_updated name id (suc n) = pure tt

abbrev pub default_row : ℕ → Option WalletRow → Uuid → Text → WalletRow
default_row now none user currency = record {
  user_id = user;
  balance = pos 0;
  currency = upper currency;
  status = status_name WalletStatus.active;
  created_at = now;
  updated_at = now;
}
default_row now (some row) user currency = record row {
  user_id = user;
  balance = pos 0;
  currency = upper currency;
  status = status_name WalletStatus.active;
  updated_at = now;
}

-- `update_or_create`: an existing row keeps only its `created_at`
unfoldable pub on_wallet_created : ℕ → WalletEvent → Text → Projection
unfolding save_row
on_wallet_created now e currency = do
  found ← gets (λ s. lookup e.wallet_id s.wallets)
  save_row e.wallet_id (default_row now found e.user_id currency)

-- the three handlers that set a status
unfoldable pub set_status : String → WalletStatus → WalletEvent → Projection
unfolding update_where require_updated
set_status name status e = do
  updated ← update_where e.wallet_id (λ _. true) (λ row. record row { status = status_name status })
  require_updated name e.wallet_id updated

-- the handlers that add an amount: deposits, refunds and adjustments
unfoldable pub credit : String → WalletEvent → Decimal → Projection
unfolding update_where require_updated
credit name e amount = do
  lift (validate_amount amount)
  q ← lift (quantize amount)
  updated ← update_where e.wallet_id (λ _. true) (λ row. record row { balance = row.balance +ℤ q })
  require_updated name e.wallet_id updated

-- the handlers that take an amount from a sufficient balance: withdrawals and payments
unfoldable pub debit : String → WalletEvent → Decimal → Projection
unfolding update_where require_updated
debit name e amount = do
  lift (validate_amount amount)
  q ← lift (quantize amount)
  updated ←
      update_where e.wallet_id (λ row. leb_ℤ q row.balance)
        (λ row. record row { balance = row.balance -ℤ q })
  require_updated name e.wallet_id updated

unfoldable pub handle : ℕ → WalletEvent → Body → Projection
unfolding on_wallet_created set_status credit debit
handle now e (created currency) = on_wallet_created now e currency
handle now e Body.activated = set_status "WalletActivatedEvent" WalletStatus.active e
handle now e Body.suspended = set_status "WalletSuspendedEvent" WalletStatus.suspended e
handle now e Body.closed = set_status "WalletClosedEvent" WalletStatus.closed e
handle now e (deposited amount _ _) = credit "WalletDepositedEvent" e amount
handle now e (withdrawn amount _ _) = debit "WalletWithdrawnEvent" e amount
handle now e (payment_made amount _ _) = debit "WalletPaymentMadeEvent" e amount
handle now e (refunded amount _ _) = credit "WalletRefundedEvent" e amount
handle now e (adjusted amount _ _ _) = credit "WalletAdjustedEvent" e amount

-- `project`
unfoldable pub project : ℕ → WalletEvent → Projection
unfolding handle
project now e = atomic (handle now e e.body)
