-- ===== src/Kafka/Publisher.antt =====
-- The publisher of messaging/kafka/outbox_publisher.py over the table of the outbox. The producer of
-- confluent_kafka is a parameter, one value of it for each round of the loop: what a `produce` answers
-- and what a `flush` reports, given the messages in flight. Payloads are JSON already, so
-- `json.dumps` cannot fail on them.
use microservice_wallet_serv.Base.{
  ℕ, Option, none, some, List, [], ◌∷◌, ◌++◌, leb, ◌==◌, if◌then◌else◌,
}
use microservice_wallet_serv.Base.Text.{Text}
use microservice_wallet_serv.Errors.{Uuid, ok, err, other}
use microservice_wallet_serv.Errors.Exec.{Exec, pure, modify, catch, ◌>>◌}
use microservice_wallet_serv.Event.Json.{Fields}
use microservice_wallet_serv.Outbox.{
  OutboxEvent, OutboxRow, Outbox, get_unpublished_events, update_where, mark_as_published,
  mark_as_failed,
}

-- what `produce` is given: the key and the id in its callback, the headers and the value
pub record Message : Type 0 where
  pub event_id : Uuid
  pub event_type : Text
  pub payload : Fields

-- a return of `produce`, a BufferError, or another exception
pub data Produced : Type 0 where
  queued : Produced
  buffer_full : Produced
  refused : Text → Produced

-- a call of `on_delivery`: the message's id, and the error's text where there is one
pub record Report : Type 0 where
  pub event_id : Uuid
  pub error : Option Text

-- `flush` makes some reports, and leaves the other messages in flight
pub record Producer : Type 0 where
  pub produce : Message → List Message → Produced
  pub flush : List Message → List Report × List Message

pub record Publisher : Type 0 where
  pub outbox : Outbox
  pub in_flight : List Message

-- a call of the repository
unfoldable pub on_outbox : {A : Type 0} → Exec Outbox A → Exec Publisher A
on_outbox m s = let (r, rows) = m s.outbox in (r, record s { outbox = rows })

-- `EventOutbox.objects.get(id=…)`
unfoldable pub find_row : Uuid → Outbox → Option OutboxRow
find_row id [] = none
find_row id (x ∷ xs) = if x.id == id then some x else find_row id xs

-- `if event.retry_count >= KAFKA_RETRIES: …update(processed_at=timezone.now())`, unless DoesNotExist
unfoldable pub bury : ℕ → ℕ → Uuid → Outbox → Outbox
unfolding find_row update_where
bury retries now id rows = elim (find_row id rows) [
  | none ↦ rows
  | some row ↦
      if leb retries row.retry_count
      then (update_where (λ r. r.id == id) (λ r. record r { processed_at = some now }) rows).1
      else rows
]

-- `_delivery_report`
unfoldable pub delivery_report : ℕ → ℕ → Report → Exec Outbox (Unit {0})
unfolding mark_as_failed mark_as_published bury
delivery_report retries now report = elim report.error [
  | some error ↦ mark_as_failed report.event_id error >> modify (bury retries now report.event_id)
  | none ↦ mark_as_published now report.event_id
]

unfoldable pub message : OutboxEvent → Message
message e = record { event_id = e.id; event_type = e.event_type; payload = e.event_payload }

module _ (retries now : ℕ) (producer : Producer) where
  -- the callbacks of one flush; an exception of one ends it
  unfoldable pub handle_reports : List Report → Exec Outbox (Unit {0})
  unfolding delivery_report
  handle_reports [] = pure tt
  handle_reports (r ∷ rs) = delivery_report retries now r >> handle_reports rs

  -- `self.producer.flush(timeout=10.0)`
  unfoldable pub flush : Exec Publisher (Unit {0})
  unfolding on_outbox handle_reports
  flush s =
      let (reports, left) = producer.flush s.in_flight in
      on_outbox (handle_reports reports) (record s { in_flight = left })

  -- a `produce` with nothing that catches
  unfoldable pub produce_again : Message → Exec Publisher (Unit {0})
  produce_again m s = elim (producer.produce m s.in_flight) [
    | queued ↦ (ok tt, record s { in_flight = s.in_flight ++ m ∷ [] })
    | buffer_full ↦ (err (other "BufferError"), s)
    | refused error ↦ (err (other "KafkaException"), s)
  ]

  -- one event of the loop: `produce`, with its two `except` clauses
  unfoldable pub queue_event : OutboxEvent → Exec Publisher (Unit {0})
  unfolding flush produce_again on_outbox mark_as_failed message
  queue_event e s = elim (producer.produce (message e) s.in_flight) [
    | queued ↦ (ok tt, record s { in_flight = s.in_flight ++ message e ∷ [] })
    | buffer_full ↦ (flush >> produce_again (message e)) s
    | refused error ↦ on_outbox (mark_as_failed e.id error) s
  ]

  unfoldable pub queue_events : List OutboxEvent → Exec Publisher (Unit {0})
  unfolding queue_event
  queue_events [] = pure tt
  queue_events (e ∷ es) = queue_event e >> queue_events es

  -- the rest of `publish_events` on the events that it has fetched
  unfoldable pub publish_fetched : List OutboxEvent → Exec Publisher (Unit {0})
  unfolding queue_events flush
  publish_fetched [] = pure tt
  publish_fetched (e ∷ es) = queue_events (e ∷ es) >> flush

  unfoldable pub publish_events : Exec Publisher (Unit {0})
  unfolding publish_fetched get_unpublished_events
  publish_events s = publish_fetched (get_unpublished_events 20 s.outbox) s

  -- the body of the loop in `start`: after an exception there is a new producer
  unfoldable pub publish_round : Publisher → Publisher
  unfolding publish_events
  publish_round s = (catch publish_events (λ _. modify λ t. record t { in_flight = [] }) s).1

-- the loop of `start`, with the time and the producer of each round
unfoldable pub start : ℕ → List (ℕ × Producer) → Publisher → Publisher
unfolding publish_round
start retries [] s = s
start retries ((now, producer) ∷ rounds) s =
    start retries rounds (publish_round retries now producer s)
