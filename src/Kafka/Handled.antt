-- ===== src/Kafka/Handled.antt =====
-- What the Kafka consumer makes of the messages that the publisher sends, and of redeliveries.
use microservice_wallet_serv.Base.{
  ℕ, ◌+◌, ◌<◌, ◌≡◌, sym, ap, ◌∙◌, Bool, true, false, Option, none, some, [], ◌∷◌, ◌++◌, ltb, arith,
  if◌then◌else◌,
}
use microservice_wallet_serv.Base.Text.{Text, same_text_refl}
use microservice_wallet_serv.Errors.{PyError, Result, ok, err, other}
use microservice_wallet_serv.Errors.Exec.{Exec, bind_run, lift, pure, ◌>>◌}
use microservice_wallet_serv.Event.{
  EventKind, wallet_created, wallet_activated, wallet_suspended, wallet_closed, wallet_deposited,
  wallet_withdrawn, wallet_payment_made, wallet_refunded, wallet_adjusted, Body, created, deposited,
  withdrawn, payment_made, refunded, adjusted, WalletEvent, kind, value, event_type,
}
use microservice_wallet_serv.Event.Json.{Json, obj, Codec}
use microservice_wallet_serv.Event.Serial.{Fresh, to_dict}
use microservice_wallet_serv.Event.RoundTrip.{from_dict-to_dict, find_kind-kind}
use microservice_wallet_serv.Event.TypeName.{registry, find_kind}
use microservice_wallet_serv.EventStore.Append.{Env, Call, outbox_event}
use microservice_wallet_serv.Bus.{Bus, publish}
use microservice_wallet_serv.Bus.Handlers.{
  Log, LogLine, Detail, ids_only, amount, booking, reason, detail_of, log_line,
  configure_wallet_event_bus,
}
use microservice_wallet_serv.Bus.Published.{publish_logs}
use microservice_wallet_serv.Dedup.{Cache, is_tracked, week, is_duplicate}
use microservice_wallet_serv.Dedup.Once.{is_duplicate_new, is_duplicate_seen}
use microservice_wallet_serv.Kafka.Publisher.{message}
use microservice_wallet_serv.Kafka.Dispatch.{
  read_event, log_dispatched, dispatch_event, process_event,
}
use microservice_wallet_serv.Kafka.Consumer.{
  Received, id_of, type_of, key_prefix, payload_of, process_or_log, handle_message,
}

module _ {S : Type 0} (C : Codec) (fresh : Fresh) (bus : Bus S) where
  process_found :
      (t : Text) (d : Json) (s : S) {k : EventKind}
      → find_kind value t registry ≡ some k
      → process_event C fresh bus t d s ≡ dispatch_event C fresh bus k d s
  unfolding process_event
  process_found t d s h =
      ap
        (λ o.
          (elim o as (λ _. Exec S (Unit {0})) [
            | some j ↦ dispatch_event C fresh bus j d
            | none ↦ pure tt
          ])
            s)
        h

dispatch_event-to_dict :
    (C : Codec) (fresh : Fresh) (e : WalletEvent) (log : Log)
    → dispatch_event C fresh (configure_wallet_event_bus []) (kind e.body) (obj (to_dict C e)) log
      ≡ (log_dispatched (kind e.body), log ++ log_line e ∷ [])
unfolding dispatch_event read_event
dispatch_event-to_dict C fresh e log =
    bind_run (lift (read_event C fresh (kind e.body) (obj (to_dict C e)))) after log
      (ap (λ r. (r, log)) (from_dict-to_dict C fresh e))
    ∙ bind_run (publish (configure_wallet_event_bus []) e)
        (λ _. lift (log_dispatched (kind e.body))) log (publish_logs e log)
  where
    after : WalletEvent → Exec Log (Unit {0})
    after x = publish (configure_wallet_event_bus []) x >> lift (log_dispatched (kind e.body))

-- a line on an event
abbrev line : WalletEvent → EventKind → Detail → LogLine
line e k detail = record {
  received = k;
  wallet_id = e.wallet_id;
  user_id = e.user_id;
  detail = detail;
}

-- What should come of an event of each class: its line is the last of the log, with the event's two
-- ids, its amount, currency and booking or reason where it has them, and a payment's dispatch raises.
unfoldable pub IsDispatched : Result (Unit {0}) × Log → WalletEvent → Log → Body → Type 0
IsDispatched out e log (created c) = out ≡ (ok tt, log ++ line e wallet_created ids_only ∷ [])
IsDispatched out e log Body.activated = out ≡ (ok tt, log ++ line e wallet_activated ids_only ∷ [])
IsDispatched out e log Body.suspended = out ≡ (ok tt, log ++ line e wallet_suspended ids_only ∷ [])
IsDispatched out e log Body.closed = out ≡ (ok tt, log ++ line e wallet_closed ids_only ∷ [])
IsDispatched out e log (deposited a c r) =
    out ≡ (ok tt, log ++ line e wallet_deposited (amount a c) ∷ [])
IsDispatched out e log (withdrawn a c r) =
    out ≡ (ok tt, log ++ line e wallet_withdrawn (amount a c) ∷ [])
IsDispatched out e log (payment_made a c b) =
    out ≡ (err (other "AttributeError"), log ++ line e wallet_payment_made (booking a c b) ∷ [])
IsDispatched out e log (refunded a c b) =
    out ≡ (ok tt, log ++ line e wallet_refunded (amount a c) ∷ [])
IsDispatched out e log (adjusted a c r i) =
    out ≡ (ok tt, log ++ line e wallet_adjusted (reason a c r) ∷ [])

log_line-IsDispatched :
    (out : Result (Unit {0}) × Log) (e : WalletEvent) (log : Log) (b : Body)
    → out ≡ (log_dispatched (kind b), log ++ line e (kind b) (detail_of b) ∷ [])
    → IsDispatched out e log b
unfolding IsDispatched log_dispatched kind detail_of
log_line-IsDispatched out e log (created c) h = h
log_line-IsDispatched out e log Body.activated h = h
log_line-IsDispatched out e log Body.suspended h = h
log_line-IsDispatched out e log Body.closed h = h
log_line-IsDispatched out e log (deposited a c r) h = h
log_line-IsDispatched out e log (withdrawn a c r) h = h
log_line-IsDispatched out e log (payment_made a c b) h = h
log_line-IsDispatched out e log (refunded a c b) h = h
log_line-IsDispatched out e log (adjusted a c r i) h = h

-- An event goes from the event store to its handler: take the outbox row that `append` saves for it,
-- the message that the publisher makes of the row, and the dispatch of that message on the bus
-- as the service configures it. The log gets one line, of the event's kind and with its own
-- ids, amount, currency, booking and reason; and the dispatch raises AttributeError, after that,
-- for a payment and for no other event.
pub process_event-IsDispatched :
    (env : Env) (call : Call) (version : ℕ) (fresh : Fresh) (e : WalletEvent) (log : Log)
    → let m = message (outbox_event env call version e) in
      IsDispatched
        (process_event env.codec fresh
          (configure_wallet_event_bus [])
          m.event_type
          (obj m.payload)
          log)
        e
        log
        e.body
unfolding message outbox_event event_type log_line
process_event-IsDispatched env call version fresh e log = log_line-IsDispatched _ e log e.body (
    process_found env.codec fresh (configure_wallet_event_bus []) (value (kind e.body))
      (obj (to_dict env.codec e)) log (find_kind-kind e.body)
    ∙ dispatch_event-to_dict env.codec fresh e log)

module _ {K S : Type 0} (cache : Cache K) (loads : Text → Option Json) (C : Codec) (fresh : Fresh)
    (bus : Bus S) where
  handled_as :
      (m : Received) (c : K) (s : S) {b : Bool} {c' : K}
      → is_duplicate cache key_prefix m.time (id_of m) c ≡ (b, c')
      → handle_message cache loads C fresh bus m (c, s) ≡ (
          let (committed, s') = process_or_log cache loads C fresh bus m s in
          if b then (some m.offset, c', s) else (committed, c', s'))
  unfolding handle_message
  handled_as m c s h =
      ap
        (λ r.
          let (committed, s') = process_or_log cache loads C fresh bus m s in
          if r.0 then (some m.offset, r.1, s) else (committed, r.1, s'))
        h

  not_committed :
      (m : Received) (s : S) {e : PyError}
      → (process_event C fresh bus (type_of m) (payload_of loads m) s).0 ≡ err e
      → (process_or_log cache loads C fresh bus m s).0 ≡ none
  unfolding process_or_log
  not_committed m s h =
      ap (λ r. elim r as (λ _. Option ℕ) [ ok _ ↦ some m.offset | err _ ↦ none ]) h

  held_later :
      (m : Received) (later : ℕ) (c : K)
      → later < m.time + week
      → cache.holds later (key_prefix ++ id_of m) (cache.set m.time (key_prefix ++ id_of m) week c)
        ≡ true
  held_later m later c soon =
      cache.holds-set later m.time week (key_prefix ++ id_of m) (key_prefix ++ id_of m) c
      ∙ ap
          (λ b.
            if b then ltb later (m.time + week) else cache.holds later (key_prefix ++ id_of m) c)
          (same_text_refl (key_prefix ++ id_of m))
      ∙ in_time
    where
      in_time : ltb later (m.time + week) ≡ true
      in_time = ground (arith, soon)

  -- A message with an id that the cache does not have yet, whose processing raises, is not
  -- committed. Delivered again within a week it is committed without being processed: the store
  -- stays as the failed attempt has left it.
  pub failure_skipped :
      (m : Received) (later offset : ℕ) (c : K) (s : S) {e : PyError}
      → is_tracked (id_of m) ≡ true
      → cache.holds m.time (key_prefix ++ id_of m) c ≡ false
      → (process_event C fresh bus (type_of m) (payload_of loads m) s).0 ≡ err e
      → later < m.time + week
      → let first = handle_message cache loads C fresh bus m (c, s) in
        let again =
          handle_message cache loads C fresh bus
            (record m { time = later; offset = offset })
            (first.1, first.2) in
        (first.0 ≡ none) × (again.0 ≡ some offset) × (again.2 ≡ first.2)
  unfolding id_of
  failure_skipped m later offset c s tracked new raises soon =
      let key = key_prefix ++ id_of m in
      let c' = cache.set m.time key week c in
      let s' = (process_or_log cache loads C fresh bus m s).1 in
      let first =
        handled_as m c s (is_duplicate_new cache key_prefix m.time (id_of m) c tracked new) in
      let m' : Received = record m { time = later; offset = offset } in
      let again =
        ap (λ r. handle_message cache loads C fresh bus m' (r.1, r.2)) first
        ∙ handled_as m' c' s' (
            is_duplicate_seen cache key_prefix later (id_of m) c' tracked
              (held_later m later c soon)) in
      (
        ap (λ r. r.0) first ∙ not_committed m s raises,
        ap (λ r. r.0) again,
        ap (λ r. r.2) again ∙ sym (ap (λ r. r.2) first),
      )
