-- ===== src/EventStore/Append.antt =====
-- `EventStoreRepository.append`. `Env` is what surrounds one call: the setting `DEBUG`, the texts of
-- ids and amounts, and the ids and times that `uuid4` and the clock give the call's rows, by the
-- version of the event, of which a call makes one row at most. Another call has another `Env`.
use microservice_wallet_serv.Base.{ℕ, ◌+◌, Bool, none, List, [], ◌∷◌, if◌then◌else◌}
use microservice_wallet_serv.Base.Text.{Text}
use microservice_wallet_serv.Errors.{Uuid, Result, optimistic_concurrency, is_integrity_error}
use microservice_wallet_serv.Errors.Exec.{Exec, pure, raise, atomic, catch, ◌>>◌}
use microservice_wallet_serv.Event.{WalletEvent, event_type}
use microservice_wallet_serv.Event.Json.{Codec, Fields}
use microservice_wallet_serv.Event.Serial.{Fresh, to_dict}
use microservice_wallet_serv.Outbox
use microservice_wallet_serv.Outbox.{OutboxEvent, Outbox}
use microservice_wallet_serv.ReadModel.{ReadSide}
use microservice_wallet_serv.ReadModel.Runner.{apply_from_event}
use microservice_wallet_serv.EventStore.{EventRow, create_row}

pub record Env : Type 0 where
  pub debug : Bool
  pub codec : Codec
  pub row_stamp : ℕ → Fresh
  pub outbox_stamp : ℕ → Fresh
  pub fresh : Fresh

pub record Database : Type 0 where
  pub events : List EventRow
  pub outbox : Outbox
  pub read : ReadSide

abbrev with_events : {A : Type 0} → Database → Result A × List EventRow → Result A × Database
with_events db (r, rows) = (r, record db { events = rows })

abbrev with_outbox : {A : Type 0} → Database → Result A × Outbox → Result A × Database
with_outbox db (r, rows) = (r, record db { outbox = rows })

abbrev with_read : {A : Type 0} → Database → Result A × ReadSide → Result A × Database
with_read db (r, s) = (r, record db { read = s })

-- code on one part of the database
abbrev pub in_events : {A : Type 0} → Exec (List EventRow) A → Exec Database A
in_events m db = with_events db (m db.events)

abbrev pub in_outbox : {A : Type 0} → Exec Outbox A → Exec Database A
in_outbox m db = with_outbox db (m db.outbox)

abbrev pub in_read : {A : Type 0} → Exec ReadSide A → Exec Database A
in_read m db = with_read db (m db.read)

-- The arguments of a call that stay the same in the loop.
pub record Call : Type 0 where
  pub aggregate_id : Uuid
  pub aggregate_type : Text
  pub expected_version : ℕ
  pub metadata : Fields

module _ (env : Env) (call : Call) where
  open env use {codec, row_stamp, outbox_stamp}

  -- the row that is created for an event at a version
  unfoldable pub stored_row : ℕ → WalletEvent → EventRow
  stored_row version e = record {
    id = (row_stamp version).new_id;
    aggregate_id = call.aggregate_id;
    aggregate_type = call.aggregate_type;
    aggregate_version = version;
    event_type = event_type e;
    event_payload = to_dict codec e;
    metadata = call.metadata;
    created_at = (row_stamp version).now;
  }

  -- `OutboxEvent(…)`
  unfoldable pub outbox_event : ℕ → WalletEvent → OutboxEvent
  outbox_event version e = record {
    id = (outbox_stamp version).new_id;
    event_type = event_type e;
    event_payload = to_dict codec e;
    aggregate_id = call.aggregate_id;
    aggregate_type = call.aggregate_type;
    trace_id = none;
    metadata = call.metadata;
    created_at = (outbox_stamp version).now;
    retry_count = 0;
  }

  -- the `try` around the creation of a row
  unfoldable pub store_event : ℕ → WalletEvent → Exec Database (Unit {0})
  store_event version e = catch (in_events (create_row (stored_row version e))) λ x.
      if is_integrity_error x
      then raise (optimistic_concurrency call.aggregate_id call.expected_version version)
      else raise x

  -- `if settings.DEBUG:`
  unfoldable pub project_in_debug : WalletEvent → Exec Database (Unit {0})
  project_in_debug e = if env.debug then in_read (apply_from_event env.fresh.now e) else pure tt

  -- one round of the loop
  unfoldable pub append_event : ℕ → WalletEvent → Exec Database (Unit {0})
  append_event version e = do
    store_event version e
    in_outbox (Outbox.save 3 (outbox_event version e))
    project_in_debug e

  -- the loop from `current_version` on
  unfoldable pub append_loop : ℕ → List WalletEvent → Exec Database (Unit {0})
  append_loop current [] = pure tt
  append_loop current (e ∷ es) = do append_event (current + 1) e; append_loop (current + 1) es

  -- `append`: without events it returns at once
  unfoldable pub append : List WalletEvent → Exec Database (Unit {0})
  append [] = pure tt
  append (e ∷ es) = atomic (append_loop call.expected_version (e ∷ es))
