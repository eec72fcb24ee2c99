-- ===== src/Rabbit.antt =====
-- The commands of the booking service: application/ant_corruption_layer/booking/commands/
-- room_acl_commands.py and messaging/rabbitMQ/dispatchers/booking_acl.py. What pydantic makes of
-- an amount is a parameter, and so is the time that a command is given.
pub mod Booking
pub mod Consumer
pub mod Settled
pub mod Effects
mod Tests
use microservice_wallet_serv.Base.{ℕ, String, Bool, true, false, Option, none, some, if◌then◌else◌}
use microservice_wallet_serv.Base.Int.{pos}
use microservice_wallet_serv.Base.Text.{text, same_text}
use microservice_wallet_serv.Errors.{
  Uuid, PyError, Result, ok, err, value_error, type_error, key_error, runtime_error,
  invalid_operation, is_value_error, ◌>>=◌, ◌>>◌, raise_if,
}
use microservice_wallet_serv.Decimal.{Decimal, finite}
use microservice_wallet_serv.Event.Json.{Json, null, str, num, obj, Codec}
use microservice_wallet_serv.Event.Untyped.{subscript, decimal_of_str}
use microservice_wallet_serv.Event.Serial.{index, parse_uuid}

-- `RequestPaymentACLCommand` and `RequestRefundACLCommand` have the same fields; the first two are
-- those of `DomainCommand`
pub record AclFields : Type 0 where
  pub correlation_id : Option Uuid
  pub timestamp : ℕ
  pub booking_id : Uuid
  pub amount : Decimal
  pub client_id : Uuid

pub data AclCommand : Type 0 where
  request_payment : AclFields → AclCommand
  request_refund : AclFields → AclCommand

-- the `except` clauses: KeyError, then ValueError and TypeError
unfoldable pub invalid_payload : PyError → PyError
invalid_payload (key_error k) = value_error "Missing required field in payload"
invalid_payload type_error = value_error "Invalid data in payload"
invalid_payload e = if is_value_error e then value_error "Invalid data in payload" else e

unfoldable pub except_payload : Result AclCommand → Result AclCommand
unfolding invalid_payload
except_payload (ok c) = ok c
except_payload (err e) = err (invalid_payload e)

-- booking_command_name == name
unfoldable pub is_name : String → Json → Bool
is_name name (str s) = same_text s (text name)
is_name name _ = false

module _ (C : Codec) (accepts : Decimal → Bool) (now : ℕ) where
  -- the keyword arguments in their order, then pydantic's check of the amount
  unfoldable pub acl_fields : Json → Result AclFields
  unfolding subscript parse_uuid decimal_of_str
  acl_fields payload = do
    booking ← (do v ← subscript "booking_id" payload; parse_uuid C v)
    amount ← (do v ← subscript "amount" payload; decimal_of_str C v)
    client ← (do v ← subscript "client_id" payload; parse_uuid C v)
    raise_if (if accepts amount then false else true) (value_error "ValidationError")
    ok (record {
      correlation_id = none;
      timestamp = now;
      booking_id = booking;
      amount = amount;
      client_id = client;
    })

  unfoldable pub translate_booking_command : Json → Json → Result AclCommand
  unfolding acl_fields except_payload is_name
  translate_booking_command name payload = except_payload (
      if is_name "RequestRefundCommand" name
      then (do f ← acl_fields payload; ok (request_refund f))
      else if is_name "RequestPaymentCommand" name
      then (do f ← acl_fields payload; ok (request_payment f))
      else err (runtime_error "Unsupported booking command"))
