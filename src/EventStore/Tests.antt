-- ===== src/EventStore/Tests.antt =====
-- The event store's theorems at a concrete wallet, in an empty database.
use mathlib.Core.List.{map}
use microservice_wallet_serv.Base.{◌+◌, ◌≡◌, ◌⊎◌, refl, false, none, some, List, [], ◌∷◌}
use microservice_wallet_serv.Base.Int.{negsuc}
use microservice_wallet_serv.Base.Text.{text, upper, strip, same_text}
use microservice_wallet_serv.Errors.{PyError, ok, err, optimistic_concurrency}
use microservice_wallet_serv.Decimal.{finite, le_zero}
use microservice_wallet_serv.Event.{created}
use microservice_wallet_serv.Event.Json.{end}
use microservice_wallet_serv.Event.Serial.{Fresh}
use microservice_wallet_serv.Event.Samples.{sample_codec, sample_fresh, adjustment_event}
use microservice_wallet_serv.Aggregate
use microservice_wallet_serv.Aggregate.{WalletStatus, WalletAggregate}
use microservice_wallet_serv.Aggregate.Request.{Operation}
use microservice_wallet_serv.Aggregate.Operations.{perform}
use microservice_wallet_serv.Aggregate.Lifecycle.{perform_all}
use microservice_wallet_serv.Aggregate.Replay.{settled}
use microservice_wallet_serv.EventStore
use microservice_wallet_serv.EventStore.{stream}
use microservice_wallet_serv.EventStore.Append.{
  Env, Call, Database, append, append_loop, append_event, store_event, project_in_debug, stored_row,
  outbox_event,
}
use microservice_wallet_serv.EventStore.Stored.{stored_rows, messages, append_all_or_nothing}
use microservice_wallet_serv.EventStore.Concurrency.{second_writer_refused}
use microservice_wallet_serv.EventStore.CommandRepo
use microservice_wallet_serv.EventStore.CommandRepo.{wallet_type, load, save, save_events}
use microservice_wallet_serv.EventStore.SaveLoad.{create_save_load}
use microservice_wallet_serv.Outbox

abbrev env : Env
env = record {
  debug = false;
  codec = sample_codec;
  row_stamp = λ v. record { new_id = 100 + v; now = 30 };
  outbox_stamp = λ v. record { new_id = 200 + v; now = 30 };
  fresh = sample_fresh;
}

abbrev nothing : Database
nothing = record { events = []; outbox = []; read = record { wallets = []; projection = none } }

abbrev first_call : Call
first_call = record {
  aggregate_id = 7;
  aggregate_type = wallet_type;
  expected_version = 1;
  metadata = end;
}

append_all_or_nothing_example :
    let (r, db') = append env first_call (adjustment_event ∷ []) nothing in
    ((r ≡ ok tt)
      × (db'.events ≡ stored_rows env first_call 1 (adjustment_event ∷ []))
      × (map (λ r. r.event) db'.outbox ≡ messages env first_call 1 (adjustment_event ∷ [])))
    ⊎ ((x : PyError) × (r ≡ err x) × (db' ≡ nothing))
append_all_or_nothing_example = append_all_or_nothing env first_call (adjustment_event ∷ []) nothing

append_accepts : (append env first_call (adjustment_event ∷ []) nothing).0 ≡ ok tt
unfolding append append_loop append_event store_event project_in_debug stored_row outbox_event
    EventStore.create_row EventStore.conflicts Outbox.save Outbox.save_once Outbox.create_row
    Outbox.conflicts Outbox.latest_version
append_accepts = refl

-- the second writer's rows take other ids and times
abbrev later : Env
later = record env {
  row_stamp = λ v. record { new_id = 700 + v; now = 3000 };
  outbox_stamp = λ v. record { new_id = 800 + v; now = 3000 };
}

second_writer_refused_example :
    let db' = (append env first_call (adjustment_event ∷ []) nothing).1 in
    append later first_call (adjustment_event ∷ []) db' ≡ (err (optimistic_concurrency 7 1 2), db')
second_writer_refused_example =
    second_writer_refused env later first_call first_call adjustment_event adjustment_event [] []
      nothing refl refl append_accepts

abbrev taken : Database
taken = record nothing { events = stored_rows env first_call 1 (adjustment_event ∷ []) }

-- the wallet that `create` makes, in dollars
abbrev made : WalletAggregate
made = record {
  wallet_id = 7;
  user_id = 3;
  currency = text "USD";
  status = WalletStatus.active;
  created_at = 1000;
  updated_at = 1000;
  version = 1;
  uncommitted_events =
      (record {
        meta = record {
          event_id = 900;
          occurred_at = 1000;
          schema_version = 1;
          wallet_id = 7;
          user_id = 3;
        };
        body = created (text "USD");
      })
      ∷ [];
}

abbrev calls : List (Fresh × Operation)
calls =
    (sample_fresh, Operation.deposit (finite false 1250 (negsuc 1)) none)
    ∷ (sample_fresh, Operation.suspend)
    ∷ []

abbrev saved : WalletAggregate
saved = record made { status = WalletStatus.suspended; version = 6; uncommitted_events = [] }

made_ok : Aggregate.create sample_fresh 7 (some 3) (text "usd") none ≡ ok made
unfolding Aggregate.create Aggregate.new_aggregate Aggregate.apply Aggregate.when Aggregate.handler
    Aggregate.new_event upper strip
made_ok = refl

saved_ok : (CommandRepo.create env (perform_all calls made) nothing).0 ≡ ok saved
unfolding perform_all perform le_zero upper same_text Aggregate.apply Aggregate.when
    Aggregate.handler Aggregate.new_event CommandRepo.create save save_events Aggregate.pop_events
    append append_loop append_event store_event project_in_debug stored_row outbox_event
    EventStore.create_row EventStore.conflicts Outbox.save Outbox.save_once Outbox.create_row
    Outbox.conflicts Outbox.latest_version
saved_ok = refl

create_save_load_example :
    let b = perform_all calls made in
    ((load env b.wallet_id (CommandRepo.create env b nothing).1).0 ≡ ok (settled b 6))
    × (6 ≡ b.version + b.version)
unfolding stream
create_save_load_example =
    create_save_load env sample_fresh 7 3 (text "usd") none calls nothing made_ok refl saved_ok
