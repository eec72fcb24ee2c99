-- ===== src/Aggregate/Entity.antt =====
-- The class `Wallet` of domain/apps/wallet/models.py, the entity without events, beside the
-- aggregate. Times are what `_now_utc` returns.
use microservice_wallet_serv.Base.{ℕ, ◌≡◌, Option, none, arith, if◌then◌else◌}
use mathlib.Core.Option.{get_or}
use microservice_wallet_serv.Base.Text.{Text, upper}
use microservice_wallet_serv.Errors.{
  Uuid, Result, ok, err, not_implemented, wallet_closed, wallet_suspended,
}
use microservice_wallet_serv.Errors.Exec.{Exec, pure, raise, raise_if, gets, modify, ◌>>=◌, ◌>>◌}
use microservice_wallet_serv.Event.Serial.{Fresh}
use microservice_wallet_serv.Aggregate.{WalletStatus, active, suspended, closed, WalletAggregate}
use microservice_wallet_serv.Aggregate.Operations
use microservice_wallet_serv.Aggregate.Operations.{is_active, is_closed}

pub record Wallet : Type 0 where
  pub wallet_id : Uuid
  pub user_id : Uuid
  pub currency : Text
  pub status : WalletStatus
  pub created_at : ℕ
  pub updated_at : ℕ

-- `__init__`: a missing id is generated, a missing time is now
unfoldable pub new_wallet :
    Uuid → ℕ → Uuid → Text → WalletStatus → Option Uuid → Option ℕ → Option ℕ → Wallet
new_wallet generated now user currency status wallet created updated = record {
  wallet_id = get_or wallet generated;
  user_id = user;
  currency = upper currency;
  status = status;
  created_at = get_or created now;
  updated_at = get_or updated now;
}

-- `Wallet.create`
unfoldable pub create_entity : Uuid → ℕ → Uuid → Text → Wallet
unfolding new_wallet
create_entity generated now user currency =
    new_wallet generated now user currency active none none none

abbrev pub EntityMethod : Type 0
EntityMethod = Exec Wallet (Unit {0})

unfoldable pub set_status : ℕ → WalletStatus → EntityMethod
set_status now status = modify (λ w. record w { status = status; updated_at = now })

unfoldable pub ensure_entity_active : EntityMethod
unfolding is_active is_closed
ensure_entity_active w =
    if is_active w.status
    then (ok tt, w)
    else if is_closed w.status
    then (err (wallet_closed w.wallet_id "wallet operation"), w)
    else (err (wallet_suspended w.wallet_id "wallet operation"), w)

unfoldable pub suspend_entity : ℕ → EntityMethod
unfolding set_status is_closed
suspend_entity now = do
  w ← gets (λ s. s)
  raise_if (is_closed w.status) (wallet_closed w.wallet_id "suspend")
  set_status now suspended

unfoldable pub activate_entity : ℕ → EntityMethod
unfolding set_status is_closed
activate_entity now = do
  w ← gets (λ s. s)
  raise_if (is_closed w.status) (wallet_closed w.wallet_id "activate")
  set_status now active

unfoldable pub close_entity : ℕ → EntityMethod
unfolding set_status is_closed
close_entity now = do
  w ← gets (λ s. s)
  if is_closed w.status then pure tt else set_status now closed

-- `deposit`, `withdraw`, `pay_with_wallet`, `refund` and `adjustment` have one body
unfoldable pub unsupported_entity_operation : EntityMethod
unfolding ensure_entity_active
unsupported_entity_operation = do
  ensure_entity_active
  raise (not_implemented "Direct mutations not supported in this minimal aggregate")

-- The entity and the aggregate hold the same wallet in the same status.
pub record Agrees (w : Wallet) (a : WalletAggregate) : Type 0 where
  pub same_id : w.wallet_id ≡ a.wallet_id
  pub same_status : w.status ≡ a.status

-- the two raise the same exception, or both return, and agree again
abbrev pub InStep : Result (Unit {0}) × Wallet → Result (Unit {0}) × WalletAggregate → Type 0
InStep (r, w) (s, a) = (r ≡ s) × Agrees w a

-- Suspending, activating and closing the entity has the outcome of the same call on the aggregate,
-- exceptions included, although the entity has no idempotent branch for a repeated call.
pub lifecycle-InStep :
    (fresh : Fresh) (now : ℕ) (w : Wallet) (a : WalletAggregate)
    → Agrees w a
    → InStep (suspend_entity now w) (Operations.suspend fresh a)
      × InStep (activate_entity now w) (Operations.activate fresh a)
      × InStep (close_entity now w) (Operations.close fresh a)
unfolding suspend_entity activate_entity close_entity Operations.suspend Operations.activate
    Operations.close
lifecycle-InStep fresh now w a h = (ground arith, ground arith, ground arith)
