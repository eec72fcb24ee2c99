-- ===== src/EventStore/Load.antt =====
-- `load` of infrastructure/repos/wallet/wallet_command_repo.py, on the rows that the query returned.
use microservice_wallet_serv.Base.{ℕ, List, [], ◌∷◌, some, none}
use microservice_wallet_serv.Errors.{Uuid, Result, ok, err, value_error, wallet_not_found, ◌>>=◌}
use microservice_wallet_serv.Event.{Body, created, WalletEvent}
use microservice_wallet_serv.Event.Json.{Codec}
use microservice_wallet_serv.Event.Serial.{Fresh, event_from_dict}
use microservice_wallet_serv.Aggregate.{WalletAggregate, new_aggregate, when}
use microservice_wallet_serv.EventStore.{EventRow}

-- `events[-1].aggregate_version`
unfoldable pub last_version : EventRow → List EventRow → ℕ
last_version r [] = r.aggregate_version
last_version r (x ∷ xs) = last_version x xs

module _ (C : Codec) (fresh : Fresh) where
  unfoldable pub decode_row : EventRow → Result WalletEvent
  decode_row r = event_from_dict C fresh r.event_type r.event_payload

  -- `for stored_event in events: … aggregate.when(domain_event)`
  unfoldable pub rehydrate : List EventRow → WalletAggregate → Result WalletAggregate
  rehydrate [] a = ok a
  rehydrate (r ∷ rows) a = do e ← decode_row r; rehydrate rows (when e a)

  -- the aggregate that the first event makes, if that is a creation
  unfoldable pub initial : WalletEvent → Body → Result WalletAggregate
  initial e (created currency) = new_aggregate fresh.now e.wallet_id e.user_id currency
  initial e _ = err (value_error "Expected WalletCreatedEvent as first event")

  -- `load`, on the aggregate's rows in order
  unfoldable pub load_rows : Uuid → List EventRow → Result WalletAggregate
  unfolding decode_row rehydrate initial last_version
  load_rows id [] = err (wallet_not_found (some id) none)
  load_rows id (r ∷ rows) = do
    first ← decode_row r
    a ← initial first first.body
    b ← rehydrate (r ∷ rows) a
    ok (record b { version = last_version r rows })
