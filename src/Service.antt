-- ===== src/Service.antt =====
-- application/wallet/services/wallet_command_services.py over the interface of
-- domain/apps/wallet/repository.py. An id that the caller may leave out is an `Option`.
pub mod Atomic
pub mod Outcomes
pub mod Stored
mod Tests
use microservice_wallet_serv.Base.{
  String, Bool, true, false, not, ◌||◌, Option, none, some, if◌then◌else◌,
}
use microservice_wallet_serv.Base.Text.{Text, is_truthy, strip}
use microservice_wallet_serv.Errors.{
  Uuid, PyError, Result, ok, err, value_error, runtime_error, wallet_domain, wallet_not_found,
  wallet_closed, wallet_suspended, invalid_wallet_currency, is_value_error, is_wallet_not_found,
}
use microservice_wallet_serv.Errors.Exec.{Exec, pure, raise, raise_if, lift, catch, ◌>>=◌, ◌>>◌}
use microservice_wallet_serv.Decimal.{Decimal, le_zero, is_zero}
use microservice_wallet_serv.Event.Serial.{Fresh}
use microservice_wallet_serv.Aggregate
use microservice_wallet_serv.Aggregate.{WalletAggregate}
use microservice_wallet_serv.Aggregate.Operations
use microservice_wallet_serv.Aggregate.Operations.{Method}

-- `WalletCommandRepository` over some store. What `save` and `create` leave in the aggregate is
-- not used by the service.
pub record CommandRepository (S : Type 0) : Type 0 where
  pub load : Uuid → Exec S WalletAggregate
  pub save : WalletAggregate → Exec S (Unit {0})
  pub create : WalletAggregate → Exec S (Unit {0})

-- `except (…, …, …) as exc: raise exc`, then `except ValueError as exc: raise WalletDomainError`
unfoldable pub translate : PyError → PyError
translate (wallet_closed id operation) = wallet_closed id operation
translate (wallet_suspended id operation) = wallet_suspended id operation
translate (invalid_wallet_currency id) = invalid_wallet_currency id
translate (value_error message) = wallet_domain message
translate e = e

-- a method call on the aggregate inside that `try`
unfoldable pub call_method : {S : Type 0} → Method → WalletAggregate → Exec S WalletAggregate
unfolding translate
call_method method a s =
    let (r, a') = method a in elim r [ ok _ ↦ (ok a', s) | err e ↦ (err (translate e), s) ]

unfoldable pub is_missing : {A : Type 0} → Option A → Bool
is_missing none = true
is_missing (some _) = false

module _ {S : Type 0} (repo : CommandRepository S) where
  -- `_load_wallet`
  unfoldable pub load_wallet : Uuid → Exec S WalletAggregate
  load_wallet id =
      catch (repo.load id)
        λ e. if is_wallet_not_found e then raise e else raise (wallet_not_found (some id) none)

  -- `_save_aggregate`
  unfoldable pub save_aggregate : WalletAggregate → Exec S (Unit {0})
  save_aggregate a = catch (repo.save a) λ _. raise (runtime_error "Failed to persist wallet")

  -- `create_wallet`
  unfoldable pub create_wallet : Fresh → Uuid → Option Uuid → Option Uuid → Text → Exec S Uuid
  create_wallet fresh generated wallet user currency = do
    raise_if (is_missing user) (value_error "user_id is required")
    raise_if (not (is_truthy currency) || not (is_truthy (strip currency)))
        (value_error "Currency is required")
    aggregate ← catch (lift (Aggregate.create fresh generated user currency wallet)) (λ e.
        if is_value_error e
        then raise (wallet_domain "Invalid wallet creation parameters")
        else raise e)
    catch (repo.create aggregate) (λ _. raise (runtime_error "Failed to save wallet"))
    pure aggregate.wallet_id

  -- load, call the method, save: what every command does behind its checks
  unfoldable pub update : Uuid → Method → Exec S (Unit {0})
  unfolding load_wallet call_method save_aggregate
  update id method = do
    aggregate ← load_wallet id
    changed ← call_method method aggregate
    save_aggregate changed

  -- `if not wallet_id: raise ValueError`, then the rest with the id
  unfoldable pub with_wallet_id : Option Uuid → (Uuid → Exec S (Unit {0})) → Exec S (Unit {0})
  with_wallet_id none rest = raise (value_error "wallet_id is required")
  with_wallet_id (some id) rest = rest id

  -- `if amount <= Decimal("0"): raise ValueError(…)`
  unfoldable pub check_positive : Decimal → String → Exec S (Unit {0})
  check_positive amount message = do low ← lift (le_zero amount); raise_if low (value_error message)

  unfoldable pub deposit : Fresh → Option Uuid → Decimal → Option Uuid → Exec S (Unit {0})
  unfolding with_wallet_id check_positive update
  deposit fresh wallet amount reference = with_wallet_id wallet λ id. do
    check_positive amount "Deposit amount must be positive"
    update id (Operations.deposit fresh amount reference)

  unfoldable pub withdraw : Fresh → Option Uuid → Decimal → Option Uuid → Exec S (Unit {0})
  unfolding with_wallet_id check_positive update
  withdraw fresh wallet amount reference = with_wallet_id wallet λ id. do
    check_positive amount "Withdrawal amount must be positive"
    update id (Operations.withdraw fresh amount reference)

  unfoldable pub with_booking_id : Option Uuid → (Uuid → Exec S (Unit {0})) → Exec S (Unit {0})
  with_booking_id none rest = raise (value_error "booking_id is required")
  with_booking_id (some booking) rest = rest booking

  unfoldable pub pay_with_wallet : Fresh → Option Uuid → Decimal → Option Uuid → Exec S (Unit {0})
  unfolding with_wallet_id with_booking_id check_positive update
  pay_with_wallet fresh wallet amount booking_id = with_wallet_id wallet λ id.
      with_booking_id booking_id λ booking. do
        check_positive amount "Payment amount must be positive"
        update id (Operations.pay_with_wallet fresh amount booking)

  unfoldable pub refund : Fresh → Option Uuid → Decimal → Option Uuid → Exec S (Unit {0})
  unfolding with_wallet_id check_positive update
  refund fresh wallet amount booking = with_wallet_id wallet λ id. do
    check_positive amount "Refund amount must be positive"
    update id (Operations.refund fresh amount booking)

  unfoldable pub adjustment : Fresh → Option Uuid → Decimal → Text → Option Uuid → Exec S (Unit {0})
  unfolding with_wallet_id update
  adjustment fresh wallet amount reason admin = with_wallet_id wallet λ id. do
    raise_if (is_zero amount) (value_error "Adjustment amount cannot be zero")
    raise_if (not (is_truthy reason) || not (is_truthy (strip reason)))
        (value_error "Adjustment reason is required")
    update id (Operations.adjustment fresh amount reason admin)

  unfoldable pub suspend_wallet : Fresh → Option Uuid → Exec S (Unit {0})
  unfolding with_wallet_id update
  suspend_wallet fresh wallet = with_wallet_id wallet λ id. update id (Operations.suspend fresh)

  unfoldable pub activate_wallet : Fresh → Option Uuid → Exec S (Unit {0})
  unfolding with_wallet_id update
  activate_wallet fresh wallet = with_wallet_id wallet λ id. update id (Operations.activate fresh)

  unfoldable pub close_wallet : Fresh → Option Uuid → Exec S (Unit {0})
  unfolding with_wallet_id update
  close_wallet fresh wallet = with_wallet_id wallet λ id. update id (Operations.close fresh)
