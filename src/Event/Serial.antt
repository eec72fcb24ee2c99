-- ===== src/Event/Serial.antt =====
-- `to_dict`, `from_dict` and `event_from_dict` of events.py. A currency or a reason that is stored
-- as a JSON value other than a text is refused here with a TypeError, where Python would carry it on.
use microservice_wallet_serv.Base.{
  ℕ, String, Bool, true, false, Option, none, some, [], if◌then◌else◌,
}
use microservice_wallet_serv.Base.Text.{Text, text}
use microservice_wallet_serv.Errors.{
  Uuid, Result, ok, err, value_error, type_error, key_error, invalid_operation, other, ◌>>=◌,
}
use microservice_wallet_serv.Decimal.{Decimal, finite}
use microservice_wallet_serv.Base.Int.{pos}
use microservice_wallet_serv.Event.{
  EventKind, wallet_created, wallet_activated, wallet_suspended, wallet_closed, wallet_deposited,
  wallet_withdrawn, wallet_payment_made, wallet_refunded, wallet_payment_failed,
  wallet_refund_failed, wallet_adjusted, Meta, Body, created, activated, suspended, closed,
  deposited, withdrawn, payment_made, refunded, adjusted, WalletEvent, value, event_type,
}
use microservice_wallet_serv.Event.Json.{
  Json, null, str, num, obj, Fields, end, field, get, is_true, Codec,
}
use microservice_wallet_serv.Event.TypeName.{find_kind, registry, normalize_wallet_event_type}

-- what `uuid4()` and `datetime.now` return, should a field be missing
pub record Fresh : Type 0 where
  pub new_id : Uuid
  pub now : ℕ

-- data[key]
unfoldable pub index : String → Fields → Result Json
index k fs = elim (get k fs) [ some v ↦ ok v | none ↦ err (key_error k) ]

-- data.get(key, default)
unfoldable pub get_or : String → Json → Fields → Json
get_or k d fs = elim (get k fs) [ some v ↦ v | none ↦ d ]

unfoldable pub as_text : Json → Result Text
as_text (str s) = ok s
as_text _ = err type_error

unfoldable pub as_number : Json → Result ℕ
as_number (num n) = ok n
as_number _ = err type_error

-- `data.get("payload", {})`, on which `.get` is called next
unfoldable pub payload_of : Fields → Result Fields
payload_of data_ = elim (get "payload" data_) [
  | none ↦ ok end
  | some (obj fs) ↦ ok fs
  | some _ ↦ err (other "AttributeError")
]

-- whether the class's `from_dict` reads the payload at all
abbrev pub reads_payload : EventKind → Bool
reads_payload wallet_activated = false
reads_payload wallet_suspended = false
reads_payload wallet_closed = false
reads_payload _ = true

module _ (C : Codec) where
  open C use {uuid_str, uuid_of, decimal_str, decimal_of, isoformat, fromisoformat}

  -- `str(x) if x else None`
  abbrev pub id_or_null : Option Uuid → Json
  id_or_null none = null
  id_or_null (some u) = str (uuid_str u)

  abbrev amount_and : Decimal → Text → Fields → Fields
  amount_and a c rest = field "amount" (str (decimal_str a)) (field "currency" (str c) rest)

  -- `if self.booking_id: payload_data["booking_id"] = …`
  abbrev booking_field : Option Uuid → Fields
  booking_field none = end
  booking_field (some u) = field "booking_id" (str (uuid_str u)) end

  unfoldable pub payload : Body → Fields
  payload (created c) = field "currency" (str c) end
  payload activated = end
  payload suspended = end
  payload closed = end
  payload (deposited a c r) = amount_and a c (field "reference_id" (id_or_null r) end)
  payload (withdrawn a c r) = amount_and a c (field "reference_id" (id_or_null r) end)
  payload (payment_made a c b) = amount_and a c (booking_field b)
  payload (refunded a c b) = amount_and a c (booking_field b)
  payload (adjusted a c reason admin) =
      amount_and a c (field "reason" (str reason) (field "admin_id" (id_or_null admin) end))

  unfoldable pub to_dict : WalletEvent → Fields
  unfolding payload event_type
  to_dict e = field "event_id" (str (uuid_str e.event_id)) (
      field "event_type" (str (event_type e)) (
        field "schema_version" (num e.schema_version) (
          field "occurred_at" (str (isoformat e.occurred_at)) (
            field "payload" (obj (payload e.body)) (
              field "wallet_id" (str (uuid_str e.wallet_id))
                (field "user_id" (str (uuid_str e.user_id)) end))))))

  -- UUID(v)
  unfoldable pub parse_uuid : Json → Result Uuid
  parse_uuid null = err type_error
  parse_uuid (str s) = elim (uuid_of s) [
    | some u ↦ ok u
    | none ↦ err (value_error "badly formed hexadecimal UUID string")
  ]
  parse_uuid (num n) = err (other "AttributeError")
  parse_uuid (obj fs) = err (other "AttributeError")

  -- Decimal(v)
  unfoldable pub parse_decimal : Json → Result Decimal
  parse_decimal null = err type_error
  parse_decimal (str s) = elim (decimal_of s) [ some d ↦ ok d | none ↦ err invalid_operation ]
  parse_decimal (num n) = ok (finite false n (pos 0))
  parse_decimal (obj fs) = err type_error

  -- datetime.fromisoformat(v)
  unfoldable pub parse_time : Json → Result ℕ
  parse_time (str s) = elim (fromisoformat s) [
    | some t ↦ ok t
    | none ↦ err (value_error "Invalid isoformat string")
  ]
  parse_time _ = err type_error

  -- `UUID(x) if x else None`
  unfoldable pub optional_uuid : Json → Result (Option Uuid)
  unfolding parse_uuid
  optional_uuid v = if is_true v then (do u ← parse_uuid v; ok (some u)) else ok none

  -- `occurred_at` in `base_from_dict`
  unfoldable pub occurred_at_of : Fresh → Option Json → Result ℕ
  unfolding parse_time
  occurred_at_of fresh none = ok fresh.now
  occurred_at_of fresh (some v) = parse_time v

  unfoldable pub base_from_dict : Fresh → Fields → Result Meta
  unfolding parse_uuid occurred_at_of index get_or as_number
  base_from_dict fresh data_ = do
    at ← occurred_at_of fresh (get "occurred_at" data_)
    id ← parse_uuid (get_or "event_id" (str (uuid_str fresh.new_id)) data_)
    version ← as_number (get_or "schema_version" (num 1) data_)
    wallet ← (do v ← index "wallet_id" data_; parse_uuid v)
    user ← (do v ← index "user_id" data_; parse_uuid v)
    ok (record {
      event_id = id;
      occurred_at = at;
      schema_version = version;
      wallet_id = wallet;
      user_id = user;
    })

  unfoldable pub amount_of : Fields → Result Decimal
  unfolding parse_decimal get_or
  amount_of p = parse_decimal (get_or "amount" (str (text "0")) p)

  unfoldable pub currency_of : Fields → Result Text
  unfolding as_text get_or
  currency_of p = as_text (get_or "currency" (str (text "USD")) p)

  -- The fields of each class's `from_dict`, from the payload. No class stands for a failure kind.
  unfoldable pub body_from : EventKind → Fields → Result Body
  unfolding amount_of currency_of optional_uuid
  body_from wallet_created p = do c ← currency_of p; ok (created c)
  body_from wallet_activated p = ok activated
  body_from wallet_suspended p = ok suspended
  body_from wallet_closed p = ok closed
  body_from wallet_deposited p = do
    a ← amount_of p
    c ← currency_of p
    r ← optional_uuid (get_or "reference_id" null p)
    ok (deposited a c r)
  body_from wallet_withdrawn p = do
    a ← amount_of p
    c ← currency_of p
    r ← optional_uuid (get_or "reference_id" null p)
    ok (withdrawn a c r)
  body_from wallet_payment_made p = do
    a ← amount_of p
    c ← currency_of p
    b ← optional_uuid (get_or "booking_id" null p)
    ok (payment_made a c b)
  body_from wallet_refunded p = do
    a ← amount_of p
    c ← currency_of p
    b ← optional_uuid (get_or "booking_id" null p)
    ok (refunded a c b)
  body_from wallet_adjusted p = do
    a ← amount_of p
    c ← currency_of p
    reason ← as_text (get_or "reason" (str []) p)
    admin ← optional_uuid (get_or "admin_id" null p)
    ok (adjusted a c reason admin)
  body_from wallet_payment_failed p = err (value_error "Unknown wallet event type")
  body_from wallet_refund_failed p = err (value_error "Unknown wallet event type")

  -- `from_dict` of the class of a kind
  unfoldable pub from_dict : Fresh → EventKind → Fields → Result WalletEvent
  unfolding base_from_dict payload_of body_from
  from_dict fresh k data_ = do
    meta ← base_from_dict fresh data_
    p ← (if reads_payload k then payload_of data_ else ok end)
    body ← body_from k p
    ok (record { meta = meta; body = body })

  -- the call of the class that the registry has, or the error when it has none
  unfoldable pub build_event : Fresh → Option EventKind → Fields → Result WalletEvent
  build_event fresh (some k) data_ = from_dict fresh k data_
  build_event fresh none data_ = err (value_error "Unknown wallet event type")

  unfoldable pub event_from_dict : Fresh → Text → Fields → Result WalletEvent
  unfolding build_event
  event_from_dict fresh t data_ = do
    normalized ← normalize_wallet_event_type t
    build_event fresh (find_kind value normalized registry) data_
