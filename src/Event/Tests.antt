-- ===== src/Event/Tests.antt =====
-- The event theorems at concrete events.
use microservice_wallet_serv.Base.{◌≡◌}
use microservice_wallet_serv.Errors.{ok, err, value_error}
use microservice_wallet_serv.Event.{wallet_adjusted, wallet_payment_failed, kind, value, event_type}
use microservice_wallet_serv.Event.Serial.{to_dict, event_from_dict}
use microservice_wallet_serv.Event.TypeName.{
  enum_name, class_name, normalize_wallet_event_type, normalize_spellings,
}
use microservice_wallet_serv.Event.RoundTrip.{event_round_trip}
use microservice_wallet_serv.Event.Samples.{sample_codec, sample_fresh, adjustment_event}

event_round_trip_example :
    (event_from_dict sample_codec sample_fresh
        (event_type adjustment_event)
        (to_dict sample_codec adjustment_event)
      ≡ ok adjustment_event)
    × (event_from_dict sample_codec sample_fresh
          (enum_name wallet_adjusted)
          (to_dict sample_codec adjustment_event)
        ≡ ok adjustment_event)
    × (event_from_dict sample_codec sample_fresh
          (class_name wallet_adjusted)
          (to_dict sample_codec adjustment_event)
        ≡ ok adjustment_event)
unfolding kind
event_round_trip_example = event_round_trip sample_codec sample_fresh adjustment_event

normalize_spellings_example :
    (normalize_wallet_event_type (value wallet_payment_failed)
      ≡ err (value_error "Unknown wallet event type"))
    × (normalize_wallet_event_type (enum_name wallet_payment_failed)
        ≡ ok (value wallet_payment_failed))
    × (normalize_wallet_event_type (class_name wallet_payment_failed)
        ≡ ok (value wallet_payment_failed))
normalize_spellings_example = normalize_spellings wallet_payment_failed
