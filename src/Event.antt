-- ===== src/Event.antt =====
-- domain/apps/wallet/events.py with its base class in domain/shared/events.py.
pub mod Json
pub mod TypeName
pub mod Serial
pub mod Untyped
pub mod RoundTrip
pub mod Samples
mod Tests
use microservice_wallet_serv.Base.{ℕ, Option}
use microservice_wallet_serv.Base.Text.{Text, text}
use microservice_wallet_serv.Errors.{Uuid}
use microservice_wallet_serv.Decimal.{Decimal}

-- `WalletEventType`
pub data EventKind : Type 0 where
  wallet_created wallet_activated wallet_suspended wallet_closed : EventKind
  wallet_deposited wallet_withdrawn wallet_payment_made wallet_refunded : EventKind
  wallet_payment_failed wallet_refund_failed wallet_adjusted : EventKind

-- The fields of `DomainEvent` and `WalletEvent`. Times are microseconds since the epoch, UTC.
pub record Meta : Type 0 where
  pub event_id : Uuid
  pub occurred_at : ℕ
  pub schema_version : ℕ
  pub wallet_id : Uuid
  pub user_id : Uuid

-- The concrete classes with the fields of their own: an amount, a currency, and the optional id of
-- a reference, a booking or an admin.
pub data Body : Type 0 where
  created : Text → Body
  activated suspended closed : Body
  deposited withdrawn : Decimal → Text → Option Uuid → Body
  payment_made refunded : Decimal → Text → Option Uuid → Body
  adjusted : Decimal → Text → Text → Option Uuid → Body

pub record WalletEvent : Type 0 where
  pub meta : Meta
  pub open meta use *
  pub body : Body

unfoldable pub kind : Body → EventKind
kind (created _) = wallet_created
kind activated = wallet_activated
kind suspended = wallet_suspended
kind closed = wallet_closed
kind (deposited _ _ _) = wallet_deposited
kind (withdrawn _ _ _) = wallet_withdrawn
kind (payment_made _ _ _) = wallet_payment_made
kind (refunded _ _ _) = wallet_refunded
kind (adjusted _ _ _ _) = wallet_adjusted

-- `WalletEventType.….value`
unfoldable pub value : EventKind → Text
value wallet_created = text "wallet.created"
value wallet_activated = text "wallet.activated"
value wallet_suspended = text "wallet.suspended"
value wallet_closed = text "wallet.closed"
value wallet_deposited = text "wallet.deposited"
value wallet_withdrawn = text "wallet.withdrawn"
value wallet_payment_made = text "wallet.payment_made"
value wallet_refunded = text "wallet.refunded"
value wallet_payment_failed = text "wallet.payment_failed"
value wallet_refund_failed = text "wallet.refund_failed"
value wallet_adjusted = text "wallet.adjusted"

-- the property `event_type` of each class
unfoldable pub event_type : WalletEvent → Text
unfolding kind value
event_type e = value (kind e.body)
