-- ===== src/Kafka/Consumer.antt =====
-- The loop of messaging/kafka/consumer.py. `json.loads` is a parameter, `none` a JSONDecodeError; keys,
-- headers and values are decoded already; a commit is the offset that it names.
use microservice_wallet_serv.Base.{ℕ, Option, none, some, List, [], ◌∷◌, if◌then◌else◌}
use microservice_wallet_serv.Base.Text.{Text, text, is_truthy}
use microservice_wallet_serv.Errors.{ok, err}
use microservice_wallet_serv.Event.Json.{Json, str, obj, field, end, Codec}
use microservice_wallet_serv.Event.Serial.{Fresh}
use microservice_wallet_serv.Bus.{Bus}
use microservice_wallet_serv.Dedup.{Cache, is_duplicate}
use microservice_wallet_serv.Kafka.Dispatch.{process_event}

-- a message with the time at which it is polled; `event_type` is the header of that name
pub record Received : Type 0 where
  pub time : ℕ
  pub offset : ℕ
  pub event_type : Option Text
  pub key : Option Text
  pub value : Text

-- what `poll` answers
pub data Polled : Type 0 where
  nothing : Polled
  failed : Polled
  message : Received → Polled

-- `headers.get("event_type", "unknown")`
unfoldable pub type_of : Received → Text
type_of m = elim m.event_type [ none ↦ text "unknown" | some t ↦ t ]

-- `msg.key().decode("utf-8") if msg.key() else "unknown"`
unfoldable pub id_of : Received → Text
id_of m = elim m.key [ none ↦ text "unknown" | some k ↦ if is_truthy k then k else text "unknown" ]

abbrev pub key_prefix : Text
key_prefix = text "kafka_processed:"

-- `json.loads`, or the text itself in a dict
unfoldable pub payload_of : (Text → Option Json) → Received → Json
payload_of loads m = elim (loads m.value) [
  | some v ↦ v
  | none ↦ obj (field "raw_value" (str m.value) end)
]

module _ {K S : Type 0} (cache : Cache K) (loads : Text → Option Json) (C : Codec) (fresh : Fresh)
    (bus : Bus S) where
  -- the second `try`: the commit, if nothing is raised
  unfoldable pub process_or_log : Received → S → Option ℕ × S
  unfolding process_event type_of payload_of
  process_or_log m s =
      let (r, s') = process_event C fresh bus (type_of m) (payload_of loads m) s in
      (elim r [ ok _ ↦ some m.offset | err _ ↦ none ], s')

  -- one message
  unfoldable pub handle_message : Received → K × S → Option ℕ × K × S
  unfolding is_duplicate id_of process_or_log
  handle_message m (c, s) =
      let (duplicate, c') = is_duplicate cache key_prefix m.time (id_of m) c in
      let (committed, s') = process_or_log m s in
      if duplicate then (some m.offset, c', s) else (committed, c', s')

  -- `start`, by the answers of `poll`: the offsets committed, until an error ends the loop
  unfoldable pub consume : List Polled → K × S → List ℕ × K × S
  unfolding handle_message
  consume [] (c, s) = ([], c, s)
  consume (nothing ∷ ps) p = consume ps p
  consume (failed ∷ ps) (c, s) = ([], c, s)
  consume (message m ∷ ps) p =
      let (committed, c, s) = handle_message m p in
      let (offsets, c', s') = consume ps (c, s) in
      (elim committed [ none ↦ offsets | some n ↦ n ∷ offsets ], c', s')
