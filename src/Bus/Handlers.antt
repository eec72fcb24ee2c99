-- ===== src/Bus/Handlers.antt =====
-- The logging handlers of messaging/wallet/event_handlers.py, and their subscription in
-- messaging/wallet/config.py. The log is a list of the lines with what they format.
use microservice_wallet_serv.Base.{Option, List, [], ◌∷◌, ◌++◌, if◌then◌else◌}
use microservice_wallet_serv.Base.Text.{Text}
use microservice_wallet_serv.Errors.{Uuid}
use microservice_wallet_serv.Errors.Exec.{pure, modify}
use microservice_wallet_serv.Decimal.{Decimal}
use microservice_wallet_serv.Event.{
  EventKind, wallet_created, wallet_activated, wallet_suspended, wallet_closed, wallet_deposited,
  wallet_withdrawn, wallet_payment_made, wallet_refunded, wallet_adjusted, Body, created, activated,
  suspended, closed, deposited, withdrawn, payment_made, refunded, adjusted, WalletEvent, kind,
}
use microservice_wallet_serv.Bus.{EventHandler, Bus, same_kind, subscribe}

-- the arguments of a line after the two ids
pub data Detail : Type 0 where
  ids_only : Detail
  amount : Decimal → Text → Detail
  booking : Decimal → Text → Option Uuid → Detail
  reason : Decimal → Text → Text → Detail

-- a line "Received …Event"
pub record LogLine : Type 0 where
  pub received : EventKind
  pub wallet_id : Uuid
  pub user_id : Uuid
  pub detail : Detail

abbrev pub Log : Type 0
Log = List LogLine

unfoldable pub detail_of : Body → Detail
detail_of (created _) = ids_only
detail_of activated = ids_only
detail_of suspended = ids_only
detail_of closed = ids_only
detail_of (deposited a c _) = amount a c
detail_of (withdrawn a c _) = amount a c
detail_of (payment_made a c b) = booking a c b
detail_of (refunded a c _) = amount a c
detail_of (adjusted a c r _) = reason a c r

unfoldable pub log_line : WalletEvent → LogLine
unfolding detail_of kind
log_line e = record {
  received = kind e.body;
  wallet_id = e.wallet_id;
  user_id = e.user_id;
  detail = detail_of e.body;
}

-- `handle` of the class for a kind: nothing for an event of another class
unfoldable pub wallet_handler : EventKind → EventHandler Log
unfolding log_line same_kind
wallet_handler k e =
    if same_kind (kind e.body) k then modify (λ log. log ++ log_line e ∷ []) else pure tt

-- `configure_wallet_event_bus`
unfoldable pub configure_wallet_event_bus : Bus Log → Bus Log
unfolding subscribe wallet_handler
configure_wallet_event_bus bus =
    let bus1 = subscribe wallet_created (wallet_handler wallet_created) bus in
    let bus2 = subscribe wallet_activated (wallet_handler wallet_activated) bus1 in
    let bus3 = subscribe wallet_suspended (wallet_handler wallet_suspended) bus2 in
    let bus4 = subscribe wallet_closed (wallet_handler wallet_closed) bus3 in
    let bus5 = subscribe wallet_deposited (wallet_handler wallet_deposited) bus4 in
    let bus6 = subscribe wallet_withdrawn (wallet_handler wallet_withdrawn) bus5 in
    let bus7 = subscribe wallet_payment_made (wallet_handler wallet_payment_made) bus6 in
    let bus8 = subscribe wallet_refunded (wallet_handler wallet_refunded) bus7 in
    subscribe wallet_adjusted (wallet_handler wallet_adjusted) bus8
