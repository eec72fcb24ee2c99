-- ===== src/Aggregate/Guards.antt =====
-- What a command method of aggregate.py does, whatever its outcome.
use microservice_wallet_serv.Base.{◌≡◌, ◌↔◌, ◌⊎◌, inr, false, Option, none, some, arith}
use microservice_wallet_serv.Base.Text.{upper, strip, same_text_iff}
use microservice_wallet_serv.Errors.{ok}
use microservice_wallet_serv.Decimal.{Decimal, le_zero, abs}
use microservice_wallet_serv.Event.{Body, deposited, withdrawn, payment_made, refunded, adjusted}
use microservice_wallet_serv.Event.Serial.{Fresh}
use microservice_wallet_serv.Aggregate.{WalletStatus, WalletAggregate, new_event, apply}
use microservice_wallet_serv.Aggregate.Request.{Operation}
use microservice_wallet_serv.Aggregate.Operations.{perform}

-- What a method's event should be, as a specification: the class and the fields. That the methods
-- apply this event is `perform_outcome`.
abbrev pub event_body : Operation → WalletAggregate → Body
event_body (Operation.deposit amount r) a = deposited amount a.currency r
event_body (Operation.withdraw amount r) a = withdrawn amount a.currency r
event_body (Operation.pay_with_wallet amount b) a = payment_made amount a.currency (some b)
event_body (Operation.refund amount b) a = refunded amount a.currency b
event_body (Operation.adjustment amount reason admin) a =
    adjusted (abs amount) a.currency (strip reason) admin
event_body Operation.suspend a = Body.suspended
event_body Operation.activate a = Body.activated
event_body Operation.close a = Body.closed

-- Every method either leaves the aggregate as it was, which is always so when it raises, or returns
-- and has applied exactly the one event of its kind.
pub perform_outcome :
    (fresh : Fresh) (op : Operation) (a : WalletAggregate)
    → ((perform fresh op a).1 ≡ a)
      ⊎ (perform fresh op a ≡ (ok tt, apply (new_event fresh a (event_body op a)) a))
unfolding perform
perform_outcome fresh (Operation.deposit amount r) a = ground arith
perform_outcome fresh _ a = ground arith

-- the calls with nothing to do: the status is already the one that the method sets
unfoldable pub IsIdle : Operation → WalletStatus → Type 0
IsIdle Operation.suspend s = s ≡ WalletStatus.suspended
IsIdle Operation.activate s = s ≡ WalletStatus.active
IsIdle Operation.close s = s ≡ WalletStatus.closed
IsIdle _ s = ⊥

-- A method that returns has applied the one event of its kind, unless it had nothing to do.
pub perform_effect :
    (fresh : Fresh) (op : Operation) (a : WalletAggregate)
    → (perform fresh op a).0 ≡ ok tt
    → (IsIdle op a.status × ((perform fresh op a).1 ≡ a))
      ⊎ (perform fresh op a ≡ (ok tt, apply (new_event fresh a (event_body op a)) a))
unfolding perform IsIdle
perform_effect fresh (Operation.deposit amount r) a h = inr (ground arith)
perform_effect fresh (Operation.withdraw amount r) a h = inr (ground arith)
perform_effect fresh (Operation.pay_with_wallet amount b) a h = inr (ground arith)
perform_effect fresh (Operation.refund amount b) a h = inr (ground arith)
perform_effect fresh (Operation.adjustment amount r i) a h = inr (ground arith)
perform_effect fresh Operation.suspend a h = ground arith
perform_effect fresh Operation.activate a h = ground arith
perform_effect fresh Operation.close a h = ground arith

-- the amount of an operation that moves money by it
abbrev pub moved : Operation → Option Decimal
moved (Operation.deposit amount _) = some amount
moved (Operation.withdraw amount _) = some amount
moved (Operation.pay_with_wallet amount _) = some amount
moved (Operation.refund amount _) = some amount
moved _ = none

-- A deposit, withdrawal, payment or refund succeeds exactly when its amount is comparable and
-- positive, the wallet is active, and its currency is in upper case.
pub perform_ok_iff :
    (fresh : Fresh) (op : Operation) (a : WalletAggregate) (amount : Decimal)
    → moved op ≡ some amount
    → ((perform fresh op a).0 ≡ ok tt) ↔ (
        (le_zero amount ≡ ok false)
        × (a.status ≡ WalletStatus.active)
        × (upper a.currency ≡ a.currency))
unfolding perform
perform_ok_iff fresh (Operation.deposit amount r) a x h = (
  λ p. ground (arith, same_text_iff (upper a.currency) a.currency),
  λ p. ground (arith, same_text_iff (upper a.currency) a.currency),
)
perform_ok_iff fresh _ a x h = (
  λ p. ground (arith, same_text_iff (upper a.currency) a.currency),
  λ p. ground (arith, same_text_iff (upper a.currency) a.currency),
)
