-- ===== src/EventStore/CommandRepo.antt =====
-- `WalletEventSourcedRepository` of infrastructure/repos/wallet/wallet_command_repo.py.
use microservice_wallet_serv.Base.{◌+◌, List, [], ◌∷◌, length}
use microservice_wallet_serv.Base.Text.{Text, text}
use microservice_wallet_serv.Errors.{Uuid}
use microservice_wallet_serv.Errors.Exec.{Exec, pure, ◌>>◌}
use microservice_wallet_serv.Event.{WalletEvent}
use microservice_wallet_serv.Event.Json.{num, end, field}
use microservice_wallet_serv.Aggregate.{WalletAggregate, pop_events}
use microservice_wallet_serv.EventStore.{stream, order_by_version}
use microservice_wallet_serv.EventStore.Load.{load_rows}
use microservice_wallet_serv.EventStore.Append.{Env, Call, Database, append}

abbrev pub wallet_type : Text
wallet_type = text "Wallet"

module _ (env : Env) where
  -- `load`
  unfoldable pub load : Uuid → Exec Database WalletAggregate
  unfolding load_rows
  load id db =
      (load_rows env.codec env.fresh id (order_by_version (stream id wallet_type db.events)), db)

  -- the call of `append` that `save` makes for popped events
  abbrev pub save_call : WalletAggregate → WalletEvent → Call
  save_call a e = record {
    aggregate_id = a.wallet_id;
    aggregate_type = wallet_type;
    expected_version = a.version;
    metadata = field "schema_version" (num e.schema_version) end;
  }

  -- `save` on the events that were popped
  unfoldable pub save_events : WalletAggregate → List WalletEvent → Exec Database WalletAggregate
  save_events a [] = pure a
  save_events a (e ∷ es) = do
    append env (save_call a e) (e ∷ es)
    pure (record a { version = a.version + length (e ∷ es) })

  -- `save`, with the aggregate that it leaves to its caller
  unfoldable pub save : WalletAggregate → Exec Database WalletAggregate
  unfolding save_events pop_events
  save a = let (events, a') = pop_events a in save_events a' events

  -- `create`
  unfoldable pub create : WalletAggregate → Exec Database WalletAggregate
  unfolding save
  create a = save a
