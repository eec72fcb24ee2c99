-- ===== src/Aggregate.antt =====
-- domain/apps/wallet/aggregate.py: the event-sourced wallet. A method is code over the aggregate
-- that may raise; `Fresh` is what `uuid4` and `datetime.now` give to the event that it creates.
pub mod Request
pub mod Operations
pub mod Guards
pub mod Lifecycle
pub mod Replay
pub mod Entity
mod Tests
use mathlib.Core.Option.{get_or}
use microservice_wallet_serv.Base.{
  length, ltb, ℕ, suc, ◌+◌, String, Bool, true, false, not, ◌||◌, Option, none, some, List, [], ◌∷◌,
  ◌++◌, if◌then◌else◌,
}
use microservice_wallet_serv.Base.Text.{Text, same_text, is_truthy, upper, strip}
use microservice_wallet_serv.Errors.{Uuid, Result, ok, err, value_error, ◌>>=◌}
use microservice_wallet_serv.Event.{
  Body, deposited, withdrawn, payment_made, refunded, adjusted, WalletEvent,
}
use microservice_wallet_serv.Event.Serial.{Fresh}

-- `WalletStatus` of domain/apps/wallet/models.py
pub data WalletStatus : Type 0 where
  active suspended closed : WalletStatus

pub record WalletAggregate : Type 0 where
  pub wallet_id : Uuid
  pub user_id : Uuid
  pub currency : Text
  pub status : WalletStatus
  pub created_at : ℕ
  pub updated_at : ℕ
  pub version : ℕ
  pub uncommitted_events : List WalletEvent

-- The constructor with the default status and version, and `__post_init__`.
unfoldable pub new_aggregate : ℕ → Uuid → Uuid → Text → Result WalletAggregate
new_aggregate now wallet user currency =
    if is_truthy (strip currency)
    then ok (record {
      wallet_id = wallet;
      user_id = user;
      currency = currency;
      status = WalletStatus.active;
      created_at = now;
      updated_at = now;
      version = 0;
      uncommitted_events = [];
    })
    else err (value_error "Currency is required")

-- the nine handlers `when_…Event`
unfoldable pub handler : WalletEvent → Body → WalletAggregate → WalletAggregate
handler e (Body.created c) a = record a {
  currency = c;
  status = WalletStatus.active;
  created_at = e.occurred_at;
}
handler e Body.activated a = record a { status = WalletStatus.active }
handler e Body.suspended a = record a { status = WalletStatus.suspended }
handler e Body.closed a = record a { status = WalletStatus.closed }
handler e (deposited _ _ _) a = a
handler e (withdrawn _ _ _) a = a
handler e (payment_made _ _ _) a = a
handler e (refunded _ _ _) a = a
handler e (adjusted _ _ _ _) a = a

-- `when`; every event has an `occurred_at`
unfoldable pub when : WalletEvent → WalletAggregate → WalletAggregate
unfolding handler
when e a = record (handler e e.body a) { updated_at = e.occurred_at }

-- `_apply`
unfoldable pub apply : WalletEvent → WalletAggregate → WalletAggregate
unfolding when
apply e a =
    let b = when e a in
    record b { uncommitted_events = b.uncommitted_events ++ e ∷ []; version = b.version + 1 }

-- the construction of an event with the aggregate's ids and the defaults of the other fields
unfoldable pub new_event : Fresh → WalletAggregate → Body → WalletEvent
new_event fresh a b = record {
  meta = record {
    event_id = fresh.new_id;
    occurred_at = fresh.now;
    schema_version = 1;
    wallet_id = a.wallet_id;
    user_id = a.user_id;
  };
  body = b;
}

-- `create`: the id is the caller's or `generated`; a missing user is `none`.
unfoldable pub create : Fresh → Uuid → Option Uuid → Text → Option Uuid → Result WalletAggregate
unfolding new_aggregate apply new_event
create fresh generated none currency wallet = err (value_error "User ID is required")
create fresh generated (some user) currency wallet = do
  let wallet_id = get_or wallet generated
  a ← new_aggregate fresh.now wallet_id user (upper currency)
  ok (apply (new_event fresh a (Body.created a.currency)) a)

-- `pop_events`
unfoldable pub pop_events : WalletAggregate → List WalletEvent × WalletAggregate
pop_events a = (a.uncommitted_events, record a { uncommitted_events = [] })

-- `has_uncommitted_events`
unfoldable pub has_uncommitted_events : WalletAggregate → Bool
has_uncommitted_events a = ltb 0 (length a.uncommitted_events)
