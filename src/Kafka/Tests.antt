-- ===== src/Kafka/Tests.antt =====
-- The publisher's theorem at two events, one of which never gets through, and the consumer's at a
-- payment, whose dispatch raises.
use microservice_wallet_serv.Base.{
  ℕ, ◌≡◌, refl, ap, none, some, List, [], ◌∷◌, arith, ◌==◌, if◌then◌else◌,
}
use microservice_wallet_serv.Base.{◌+◌, Option, false}
use microservice_wallet_serv.Base.Int.{negsuc}
use microservice_wallet_serv.Base.Text.{Text, text, same_text}
use microservice_wallet_serv.Errors.{Uuid, err, other}
use microservice_wallet_serv.Decimal.{finite}
use microservice_wallet_serv.Event.{
  WalletEvent, payment_made, wallet_payment_made, kind, value, event_type,
}
use microservice_wallet_serv.Event.Json.{Json, obj, end}
use microservice_wallet_serv.Event.Serial.{to_dict}
use microservice_wallet_serv.Event.Samples.{sample_codec, sample_fresh}
use microservice_wallet_serv.EventStore.Append.{Env, Call, outbox_event}
use microservice_wallet_serv.Bus.Handlers.{booking, configure_wallet_event_bus}
use microservice_wallet_serv.Dedup.{is_tracked}
use microservice_wallet_serv.Dedup.Samples.{sample_cache}
use microservice_wallet_serv.Kafka.Dispatch.{process_event}
use microservice_wallet_serv.Kafka.Consumer
use microservice_wallet_serv.Kafka.Consumer.{Received, type_of, payload_of, handle_message}
use microservice_wallet_serv.Kafka.Handled.{
  IsDispatched, process_event-IsDispatched, failure_skipped,
}
use microservice_wallet_serv.Outbox.{OutboxRow, Outbox, has_id, is_none, unprocessed}
use microservice_wallet_serv.Kafka.Publisher.{message, Message, Report, Producer, queued, start}
use microservice_wallet_serv.Kafka.Work.{IsKeyed, row_work, work}
use microservice_wallet_serv.Kafka.Rounds.{IsReliable, message_ids, report_ids, start_drains}

abbrev waiting : Uuid → ℕ → OutboxRow
waiting id at = record {
  event = record {
    id = id;
    event_type = text "wallet.created";
    event_payload = end;
    aggregate_id = 7;
    aggregate_type = text "wallet";
    trace_id = none;
    metadata = end;
    created_at = at;
    retry_count = 0;
  };
  aggregate_version = id;
  published_at = none;
  processed_at = none;
  error_message = none;
}

abbrev table : Outbox
table = waiting 1 20 ∷ waiting 2 10 ∷ []

-- event 2 fails
abbrev report_on : List Message → List Report
report_on [] = []
report_on (m ∷ ms) =
    record {
      event_id = m.event_id;
      error = if m.event_id == 2 then some (text "MSG_SIZE_TOO_LARGE") else none;
    }
    ∷ report_on ms

abbrev broker : Producer
broker = record { produce = λ _ _. queued; flush = λ ms. (report_on ms, []) }

reports_all : (ms : List Message) → report_ids (report_on ms) ≡ message_ids ms
unfolding report_ids message_ids
reports_all [] = refl
reports_all (m ∷ ms) = ap (λ l. m.event_id ∷ l) (reports_all ms)

broker-IsReliable : IsReliable broker
broker-IsReliable = record { takes = λ m ms. refl; reports = reports_all; clears = λ ms. refl }

table-IsKeyed : IsKeyed table
unfolding IsKeyed has_id
table-IsKeyed = (refl, (refl, tt))

table-work : work 2 table ≡ 4
unfolding work row_work is_none
table-work = refl

abbrev rounds : List (ℕ × Producer)
rounds = (60, broker) ∷ (63, broker) ∷ (66, broker) ∷ (69, broker) ∷ []

start_drains_example :
    (unprocessed (start 2 rounds (record { outbox = table; in_flight = [] })).outbox ≡ [])
    × ((j : Uuid)
        → has_id j (start 2 rounds (record { outbox = table; in_flight = [] })).outbox
          ≡ has_id j table)
unfolding is_none
start_drains_example =
    start_drains 2 rounds table table-IsKeyed ((λ h. h), ((λ h. h), tt))
      (broker-IsReliable, (broker-IsReliable, (broker-IsReliable, (broker-IsReliable, tt))))
      (omega (arith, table-work))

abbrev env : Env
env = record {
  debug = false;
  codec = sample_codec;
  row_stamp = λ v. record { new_id = 100 + v; now = 30 };
  outbox_stamp = λ v. record { new_id = 200 + v; now = 30 };
  fresh = sample_fresh;
}

abbrev call : Call
call = record {
  aggregate_id = 7;
  aggregate_type = text "wallet";
  expected_version = 0;
  metadata = end;
}

abbrev payment : WalletEvent
payment = record {
  meta = record { event_id = 1; occurred_at = 50; schema_version = 1; wallet_id = 7; user_id = 3 };
  body = payment_made (finite false 250 (negsuc 1)) (text "USD") (some 5);
}

process_event-IsDispatched_example :
    process_event sample_codec sample_fresh
      (configure_wallet_event_bus [])
      (message (outbox_event env call 1 payment)).event_type
      (obj (message (outbox_event env call 1 payment)).payload)
      []
    ≡ (
      err (other "AttributeError"),
      record {
        received = wallet_payment_made;
        wallet_id = payment.wallet_id;
        user_id = payment.user_id;
        detail = booking (finite false 250 (negsuc 1)) (text "USD") (some 5);
      }
          ∷ [],
    )
unfolding IsDispatched
process_event-IsDispatched_example = process_event-IsDispatched env call 1 sample_fresh payment []

abbrev polled : Received
polled = record {
  time = 100;
  offset = 4;
  event_type = some (text "wallet.payment_made");
  key = some (text "201");
  value = text "{}";
}

abbrev loads : Text → Option Json
loads _ = some (obj (to_dict sample_codec payment))

raised :
    (process_event sample_codec sample_fresh
      (configure_wallet_event_bus [])
      (type_of polled)
      (payload_of loads polled)
      []).0
    ≡ err (other "AttributeError")
unfolding type_of payload_of kind event_type message outbox_event value IsDispatched
raised = ap (λ r. r.0) (process_event-IsDispatched env call 1 sample_fresh payment [])

failure_skipped_example :
    let first =
      handle_message sample_cache loads sample_codec sample_fresh
        (configure_wallet_event_bus [])
        polled
        ([], []) in
    let again =
      handle_message sample_cache loads sample_codec sample_fresh
        (configure_wallet_event_bus [])
        (record polled { time = 160; offset = 9 })
        (first.1, first.2) in
    (first.0 ≡ none) × (again.0 ≡ some 9) × (again.2 ≡ first.2)
unfolding is_tracked Consumer.id_of same_text
failure_skipped_example =
    failure_skipped sample_cache loads sample_codec sample_fresh (configure_wallet_event_bus [])
      polled 160 9 [] [] refl refl raised (omega arith)
