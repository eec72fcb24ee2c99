-- ===== src/Rabbit/Consumer.antt =====
-- The consumer of messaging/rabbitMQ/consumer.py. `json.loads(body.decode("utf-8"))` is a parameter,
-- and the channel is the call that the callback makes on it.
use microservice_wallet_serv.Base.{ℕ, Bool, not, Option, none, some, List, [], ◌∷◌, if◌then◌else◌}
use microservice_wallet_serv.Base.Text.{Text, text, is_truthy}
use microservice_wallet_serv.Errors.{Result, ok, err, runtime_error, ◌>>=◌, ◌>>◌, raise_if}
use microservice_wallet_serv.Decimal.{Decimal}
use microservice_wallet_serv.Event.Json.{Json, null, Fields, is_true, Codec}
use microservice_wallet_serv.Event.Serial.{get_or}
use microservice_wallet_serv.Dedup.{Cache, is_duplicate}
use microservice_wallet_serv.Rabbit.{AclCommand, translate_booking_command}
use microservice_wallet_serv.Rabbit.Booking.{Context, dispatch_wallet_command}

-- `method`, `properties` and `body` of a callback, with the time of the call
pub record Delivery : Type 0 where
  pub time : ℕ
  pub delivery_tag : ℕ
  pub message_id : Option Text
  pub headers : Option Fields
  pub body : Text

-- `basic_ack(delivery_tag=…)`, and `basic_nack(delivery_tag=…, requeue=False)`
pub data Settlement : Type 0 where
  ack : ℕ → Settlement
  nack : ℕ → Settlement

-- `properties.message_id or "unknown"`
unfoldable pub id_of : Delivery → Text
id_of d = elim d.message_id [
  | none ↦ text "unknown"
  | some id ↦ if is_truthy id then id else text "unknown"
]

abbrev pub key_prefix : Text
key_prefix = text "wallet_service:processed_command:"

-- `properties.headers.get("command_name") if properties.headers else None`
unfoldable pub command_name : Delivery → Json
unfolding get_or
command_name d = elim d.headers [ none ↦ null | some fs ↦ get_or "command_name" null fs ]

module _ {K S : Type 0} (cache : Cache K) (loads : Text → Result Json) (C : Codec)
    (accepts : Decimal → Bool) (ctx : Context S) where
  -- the `try` up to the dispatch: what the message asks for
  unfoldable pub read_command : Delivery → Result AclCommand
  unfolding command_name is_true translate_booking_command
  read_command d = do
    payload ← loads d.body
    raise_if (not (is_true (command_name d))) (runtime_error "Missing command_name header")
    translate_booking_command C accepts d.time (command_name d) payload

  -- the dispatch, then `basic_ack`; `basic_nack` in the `except`
  unfoldable pub dispatch_or_nack : Delivery → Result AclCommand → S → Settlement × S
  unfolding dispatch_wallet_command
  dispatch_or_nack d (err e) s = (nack d.delivery_tag, s)
  dispatch_or_nack d (ok command) s =
      let (r, s') = dispatch_wallet_command C ctx command s in
      (elim r [ ok _ ↦ ack d.delivery_tag | err _ ↦ nack d.delivery_tag ], s')

  unfoldable pub callback : Delivery → K × S → Settlement × K × S
  unfolding is_duplicate id_of dispatch_or_nack read_command
  callback d (c, s) =
      let (duplicate, c') = is_duplicate cache key_prefix d.time (id_of d) c in
      let (settled, s') = dispatch_or_nack d (read_command d) s in
      if duplicate then (ack d.delivery_tag, c', s) else (settled, c', s')

  -- `start_consuming`: a callback for each delivery, one after the other (`prefetch_count=1`)
  unfoldable pub consume : List Delivery → K × S → List Settlement × K × S
  unfolding callback
  consume [] (c, s) = ([], c, s)
  consume (d ∷ ds) p =
      let (x, c, s) = callback d p in let (xs, c', s') = consume ds (c, s) in (x ∷ xs, c', s')
