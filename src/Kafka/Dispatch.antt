-- ===== src/Kafka/Dispatch.antt =====
-- messaging/kafka/dispatchers/wallet/dispatchers.py, and `process_event` of
-- messaging/kafka/consumer.py. What the dispatchers log is not modelled, but for the attribute that
-- one of them reads in vain.
use microservice_wallet_serv.Base.{none, some}
use microservice_wallet_serv.Base.Text.{Text}
use microservice_wallet_serv.Errors.{Result, ok, err, other}
use microservice_wallet_serv.Errors.Exec.{Exec, pure, lift, ◌>>=◌, ◌>>◌}
use microservice_wallet_serv.Event.{EventKind, wallet_payment_made, WalletEvent, value}
use microservice_wallet_serv.Event.Json.{Json, obj, Codec}
use microservice_wallet_serv.Event.Serial.{Fresh, from_dict}
use microservice_wallet_serv.Event.TypeName.{registry, find_kind}
use microservice_wallet_serv.Bus.{Bus, publish}

-- `from_dict` of a class on what `json.loads` gave: its first call is `data.get`
unfoldable pub read_event : Codec → Fresh → EventKind → Json → Result WalletEvent
unfolding from_dict
read_event C fresh k (obj fs) = from_dict C fresh k fs
read_event C fresh k _ = err (other "AttributeError")

-- the arguments of the last `logger.info`: `event.action_id` is no attribute of a payment
unfoldable pub log_dispatched : EventKind → Result (Unit {0})
log_dispatched wallet_payment_made = err (other "AttributeError")
log_dispatched _ = ok tt

module _ {S : Type 0} (C : Codec) (fresh : Fresh) (bus : Bus S) where
  -- the nine functions `handle_wallet_…`
  unfoldable pub dispatch_event : EventKind → Json → Exec S (Unit {0})
  unfolding read_event log_dispatched publish
  dispatch_event k data_ = do
    e ← lift (read_event C fresh k data_)
    publish bus e
    lift (log_dispatched k)

  -- `process_event`: `HANDLER_REGISTRY` has the registered kinds under their values
  unfoldable pub process_event : Text → Json → Exec S (Unit {0})
  unfolding dispatch_event find_kind value
  process_event event_type data_ = elim (find_kind value event_type registry) [
    | some k ↦ dispatch_event k data_
    | none ↦ pure tt
  ]
