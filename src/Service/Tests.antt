-- ===== src/Service/Tests.antt =====
-- The command service's theorem at one environment of the event-sourced repository.
use microservice_wallet_serv.Base.{◌+◌, true, false, some}
use microservice_wallet_serv.Base.Int.{negsuc}
use microservice_wallet_serv.Base.Text.{text}
use microservice_wallet_serv.Decimal.{Decimal, finite}
use microservice_wallet_serv.Event.Samples.{sample_codec, sample_fresh}
use microservice_wallet_serv.EventStore.Append.{Env}
use microservice_wallet_serv.Base.{none, ◌≡◌, ◌⊎◌, refl, [], ◌∷◌, ◌++◌}
use microservice_wallet_serv.Base.Text.{same_text, strip, upper}
use microservice_wallet_serv.Errors.{ok}
use microservice_wallet_serv.Decimal.{le_zero}
use microservice_wallet_serv.Event.{WalletEvent, created, event_type}
use microservice_wallet_serv.Event.Json.{end, get}
use microservice_wallet_serv.Event.Serial.{to_dict, from_dict, event_from_dict}
use microservice_wallet_serv.Event.TypeName.{normalize_wallet_event_type}
use microservice_wallet_serv.Aggregate.{
  WalletStatus, WalletAggregate, new_aggregate, new_event, apply, when, handler, pop_events,
}
use microservice_wallet_serv.Aggregate.Request.{Operation}
use microservice_wallet_serv.Aggregate.Operations.{perform}
use microservice_wallet_serv.Aggregate.Guards.{event_body, IsIdle}
use microservice_wallet_serv.EventStore
use microservice_wallet_serv.EventStore.{stream, order_by_version, insert_by_version}
use microservice_wallet_serv.EventStore.Append.{
  Database, append, append_loop, append_event, store_event, project_in_debug, stored_row,
  outbox_event,
}
use microservice_wallet_serv.EventStore.Load.{
  decode_row, rehydrate, initial, last_version, load_rows,
}
use microservice_wallet_serv.EventStore.CommandRepo.{
  wallet_type, load, save, save_events, save_call,
}
use microservice_wallet_serv.Outbox
use microservice_wallet_serv.Service.{update, load_wallet, call_method, save_aggregate}
use microservice_wallet_serv.Service.Atomic.{IsAtomic}
use microservice_wallet_serv.Service.Stored.{update_stores}
use microservice_wallet_serv.Service
use microservice_wallet_serv.Service.Outcomes.{event_repo, commands-IsAtomic}

abbrev env : Env
env = record {
  debug = true;
  codec = sample_codec;
  row_stamp = λ v. record { new_id = 100 + v; now = 30 };
  outbox_stamp = λ v. record { new_id = 200 + v; now = 30 };
  fresh = sample_fresh;
}

abbrev price : Decimal
price = finite false 1250 (negsuc 1)

commands-IsAtomic_example :
    let repo = event_repo env in
    IsAtomic (Service.create_wallet repo sample_fresh 8 (some 7) (some 3) (text "USD"))
    × IsAtomic (Service.deposit repo sample_fresh (some 7) price (some 5))
    × IsAtomic (Service.withdraw repo sample_fresh (some 7) price (some 5))
    × IsAtomic (Service.pay_with_wallet repo sample_fresh (some 7) price (some 5))
    × IsAtomic (Service.refund repo sample_fresh (some 7) price (some 5))
    × IsAtomic (Service.adjustment repo sample_fresh (some 7) price (text "fee") (some 5))
    × IsAtomic (Service.suspend_wallet repo sample_fresh (some 7))
    × IsAtomic (Service.activate_wallet repo sample_fresh (some 7))
    × IsAtomic (Service.close_wallet repo sample_fresh (some 7))
commands-IsAtomic_example =
    commands-IsAtomic env sample_fresh 8 (some 7) (some 3) (some 5) (text "USD") (text "fee") price

-- a wallet in dollars, and the database with its creation
abbrev opening : WalletEvent
opening = record {
  meta = record { event_id = 1; occurred_at = 50; schema_version = 1; wallet_id = 7; user_id = 3 };
  body = created (text "USD");
}

abbrev opened : Database
opened = record {
  events =
      record {
        id = 90;
        aggregate_id = 7;
        aggregate_type = wallet_type;
        aggregate_version = 2;
        event_type = event_type opening;
        event_payload = to_dict sample_codec opening;
        metadata = end;
        created_at = 50;
      }
      ∷ [];
  outbox = [];
  read = record { wallets = []; projection = none };
}

abbrev quiet : Env
quiet = record env { debug = false }

abbrev loaded : WalletAggregate
loaded = record {
  wallet_id = 7;
  user_id = 3;
  currency = text "USD";
  status = WalletStatus.active;
  created_at = 50;
  updated_at = 50;
  version = 2;
  uncommitted_events = [];
}

loaded_ok : (load quiet 7 opened).0 ≡ ok loaded
unfolding load load_rows decode_row rehydrate initial last_version stream order_by_version
    insert_by_version same_text new_aggregate strip when handler event_from_dict to_dict event_type
    normalize_wallet_event_type from_dict get
loaded_ok = refl

deposited_ok :
    (update (event_repo quiet) 7 (perform sample_fresh (Operation.deposit price none)) opened).0
    ≡ ok tt
unfolding update load_wallet call_method save_aggregate load load_rows decode_row rehydrate initial
    last_version stream order_by_version insert_by_version same_text new_aggregate strip when
    handler event_from_dict to_dict event_type perform le_zero upper apply new_event pop_events save
    save_events append append_loop append_event store_event project_in_debug stored_row outbox_event
    EventStore.create_row EventStore.conflicts Outbox.save Outbox.save_once Outbox.create_row
    Outbox.conflicts Outbox.latest_version normalize_wallet_event_type from_dict get
deposited_ok = refl

update_stores_example :
    let db' =
      (update
        (event_repo quiet)
        7
        (perform sample_fresh (Operation.deposit price none))
        opened).1 in
    let e = new_event sample_fresh loaded (event_body (Operation.deposit price none) loaded) in
    (IsIdle (Operation.deposit price none) loaded.status × (db' ≡ opened))
    ⊎ (db'.events ≡ opened.events ++ stored_row quiet (save_call quiet (apply e loaded) e) 4 e ∷ [])
update_stores_example =
    update_stores quiet 7 sample_fresh (Operation.deposit price none) opened loaded loaded_ok
      deposited_ok
