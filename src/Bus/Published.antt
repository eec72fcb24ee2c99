-- ===== src/Bus/Published.antt =====
-- What a publication on the configured bus does.
use microservice_wallet_serv.Base.{◌≡◌, refl, [], ◌∷◌, ◌++◌}
use microservice_wallet_serv.Base.Text.{same_text}
use microservice_wallet_serv.Errors.{ok}
use microservice_wallet_serv.Event.{WalletEvent, Meta, Body, created, kind, value}
use microservice_wallet_serv.Bus.{same_kind, subscribe, handlers_of, call_handlers, publish}
use microservice_wallet_serv.Bus.Handlers.{
  Log, log_line, detail_of, wallet_handler, configure_wallet_event_bus,
}

logs_body :
    (m : Meta) (b : Body) (log : Log)
    → let e : WalletEvent = record { meta = m; body = b } in
      publish (configure_wallet_event_bus []) e log ≡ (ok tt, log ++ log_line e ∷ [])
unfolding publish configure_wallet_event_bus subscribe handlers_of call_handlers wallet_handler
    same_kind kind value same_text log_line detail_of
logs_body m (created _) log = refl
logs_body m _ log = refl

-- On the bus as the service configures it, an event reaches its own handler once and no other: the
-- log has one line more, of the event's kind with its fields, and nothing is raised.
pub publish_logs :
    (e : WalletEvent) (log : Log)
    → publish (configure_wallet_event_bus []) e log ≡ (ok tt, log ++ log_line e ∷ [])
publish_logs e log = logs_body e.meta e.body log
