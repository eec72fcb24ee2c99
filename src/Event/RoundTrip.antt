-- ===== src/Event/RoundTrip.antt =====
-- What is written to an `event_payload` column is read back: events.py, `to_dict` and
-- `event_from_dict`.
use microservice_wallet_serv.Base.{
  ℕ, ◌≡◌, refl, ap, sym, inl, inr, Bool-cases, false, Option, none, some, if◌then◌else◌,
}
use microservice_wallet_serv.Base.Text.{Text}
use microservice_wallet_serv.Errors.{Uuid, ok}
use microservice_wallet_serv.Decimal.{Decimal}
use microservice_wallet_serv.Event.{
  Body, created, activated, suspended, closed, deposited, withdrawn, payment_made, refunded,
  adjusted, WalletEvent, kind, value, event_type,
}
use microservice_wallet_serv.Event.Json.{str, end, get, is_true, Codec}
use microservice_wallet_serv.Event.TypeName.{
  find_kind, registry, enum_name, class_name, normalize_wallet_event_type, normalize_spellings,
}
use microservice_wallet_serv.Event.Serial.{
  Fresh, id_or_null, payload, to_dict, parse_uuid, parse_time, optional_uuid, base_from_dict,
  body_from, from_dict, event_from_dict, parse_decimal, payload_of, reads_payload,
}

-- the kind of an event that exists is in the registry, under its value
pub find_kind-kind : (b : Body) → find_kind value (value (kind b)) registry ≡ some (kind b)
unfolding find_kind value kind normalize_wallet_event_type
find_kind-kind (created _) = refl
find_kind-kind _ = refl

normalize-kind : (b : Body) → normalize_wallet_event_type (value (kind b)) ≡ ok (value (kind b))
unfolding kind
normalize-kind (created _) = (normalize_spellings _).0
normalize-kind activated = (normalize_spellings _).0
normalize-kind suspended = (normalize_spellings _).0
normalize-kind closed = (normalize_spellings _).0
normalize-kind (deposited _ _ _) = (normalize_spellings _).0
normalize-kind (withdrawn _ _ _) = (normalize_spellings _).0
normalize-kind (payment_made _ _ _) = (normalize_spellings _).0
normalize-kind (refunded _ _ _) = (normalize_spellings _).0
normalize-kind (adjusted _ _ _ _) = (normalize_spellings _).0

module _ (C : Codec) where
  open C use {uuid_str, uuid_of, decimal_str}

  pub parse_uuid-uuid_str : (u : Uuid) → parse_uuid C (str (uuid_str u)) ≡ ok u
  unfolding parse_uuid
  parse_uuid-uuid_str u = rw (parse_uuid, C.uuid_of-uuid_str u)

  parse_time-isoformat : (t : ℕ) → parse_time C (str (C.isoformat t)) ≡ ok t
  unfolding parse_time
  parse_time-isoformat t = rw (parse_time, C.fromisoformat-isoformat t)

  parse_decimal-decimal_str : (d : Decimal) → parse_decimal C (str (decimal_str d)) ≡ ok d
  unfolding parse_decimal
  parse_decimal-decimal_str d = rw (parse_decimal, C.decimal_of-decimal_str d)

  pub optional_uuid-id_or_null : (o : Option Uuid) → optional_uuid C (id_or_null C o) ≡ ok o
  unfolding optional_uuid is_true
  optional_uuid-id_or_null none = refl
  optional_uuid-id_or_null (some u) = rw (C.uuid_str_truthy u, parse_uuid-uuid_str u)

  pub optional_uuid-some : (u : Uuid) → optional_uuid C (str (uuid_str u)) ≡ ok (some u)
  unfolding optional_uuid is_true
  optional_uuid-some u = rw (C.uuid_str_truthy u, parse_uuid-uuid_str u)

  ruleset codec_laws =
      (parse_uuid-uuid_str, parse_decimal-decimal_str, optional_uuid-id_or_null, optional_uuid-some)

  body_from-payload : (b : Body) → body_from C (kind b) (payload C b) ≡ ok b
  unfolding body_from payload kind get is_true
  body_from-payload (created c) = refl
  body_from-payload activated = refl
  body_from-payload suspended = refl
  body_from-payload closed = refl
  body_from-payload (deposited a c r) = rw (parse_decimal-decimal_str a, optional_uuid-id_or_null r)
  body_from-payload (withdrawn a c r) = rw (parse_decimal-decimal_str a, optional_uuid-id_or_null r)
  body_from-payload (payment_made a c none) = rw (parse_decimal-decimal_str a)
  body_from-payload (payment_made a c (some b)) =
      rw (parse_decimal-decimal_str a, optional_uuid-some b)
  body_from-payload (refunded a c none) = rw (parse_decimal-decimal_str a)
  body_from-payload (refunded a c (some b)) = rw (parse_decimal-decimal_str a, optional_uuid-some b)
  body_from-payload (adjusted a c reason admin) =
      rw (parse_decimal-decimal_str a, optional_uuid-id_or_null admin)

  base_from_dict-to_dict :
      (fresh : Fresh) (e : WalletEvent) → base_from_dict C fresh (to_dict C e) ≡ ok e.meta
  unfolding base_from_dict to_dict get
  base_from_dict-to_dict fresh e = rw (
    parse_time-isoformat e.occurred_at,
    parse_uuid-uuid_str e.event_id,
    parse_uuid-uuid_str e.wallet_id,
    parse_uuid-uuid_str e.user_id,
  )

  payload_of-to_dict : (e : WalletEvent) → payload_of (to_dict C e) ≡ ok (payload C e.body)
  unfolding payload_of to_dict get
  payload_of-to_dict e = refl

  -- a class that does not read the payload wrote an empty one
  payload-unread : (b : Body) → reads_payload (kind b) ≡ false → payload C b ≡ end
  unfolding payload kind
  payload-unread activated h = refl
  payload-unread suspended h = refl
  payload-unread closed h = refl
  payload-unread _ h = cc

  -- the part of the payload that a class reads is the payload that it wrote
  payload_read :
      (e : WalletEvent)
      → (if reads_payload (kind e.body) then payload_of (to_dict C e) else ok end)
        ≡ ok (payload C e.body)
  payload_read e = elim (Bool-cases (reads_payload (kind e.body))) [
    | inl reads ↦ rw reads (payload_of-to_dict e)
    | inr skips ↦ rw skips (ap ok (sym (payload-unread e.body skips)))
  ]

  pub from_dict-to_dict :
      (fresh : Fresh) (e : WalletEvent) → from_dict C fresh (kind e.body) (to_dict C e) ≡ ok e
  unfolding from_dict
  from_dict-to_dict fresh e =
      rw (base_from_dict-to_dict fresh e, payload_read e, body_from-payload e.body)

  event_from_dict-to_dict :
      (fresh : Fresh) (e : WalletEvent) (t : Text)
      → normalize_wallet_event_type t ≡ ok (value (kind e.body))
      → event_from_dict C fresh t (to_dict C e) ≡ ok e
  unfolding event_from_dict
  event_from_dict-to_dict fresh e t h = rw (h, find_kind-kind e.body) (from_dict-to_dict fresh e)

  -- Every event is read back from its `to_dict` as it was, whether the stored type is the event's
  -- own `event_type`, the name of the enum's member or the name of the class.
  pub event_round_trip :
      (fresh : Fresh) (e : WalletEvent)
      → (event_from_dict C fresh (event_type e) (to_dict C e) ≡ ok e)
        × (event_from_dict C fresh (enum_name (kind e.body)) (to_dict C e) ≡ ok e)
        × (event_from_dict C fresh (class_name (kind e.body)) (to_dict C e) ≡ ok e)
  unfolding event_type
  event_round_trip fresh e = (
    event_from_dict-to_dict fresh e (value (kind e.body)) (normalize-kind e.body),
    event_from_dict-to_dict fresh e (enum_name (kind e.body)) (normalize_spellings (kind e.body)).1,
    event_from_dict-to_dict fresh e (class_name (kind e.body))
        (normalize_spellings (kind e.body)).2,
  )
