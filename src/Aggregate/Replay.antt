-- ===== src/Aggregate/Replay.antt =====
-- Event sourcing: the events that a wallet has recorded rebuild its state.
use mathlib.Core.List.{foldl, foldl-append}
use microservice_wallet_serv.Base.{
  ℕ, ◌+◌, ◌≡◌, refl, ◌∙◌, ap, inl, inr, List, [], ◌∷◌, ◌++◌, length, length-append, arith,
}
use microservice_wallet_serv.Event.{Body, WalletEvent}
use microservice_wallet_serv.Event.Serial.{Fresh}
use microservice_wallet_serv.Aggregate.{WalletAggregate, handler, when, apply, new_event}
use microservice_wallet_serv.Aggregate.Request.{Operation}
use microservice_wallet_serv.Aggregate.Operations.{perform}
use microservice_wallet_serv.Aggregate.Guards.{perform_outcome, event_body}
use microservice_wallet_serv.Aggregate.Lifecycle.{perform_all}

-- `for event in events: aggregate.when(event)`
unfoldable pub replay : WalletAggregate → List WalletEvent → WalletAggregate
replay = foldl (λ a e. when e a)

-- the aggregate as it would be loaded: nothing uncommitted, at a version
abbrev pub settled : WalletAggregate → ℕ → WalletAggregate
settled a v = record a { uncommitted_events = []; version = v }

-- `b` has come from `base` by the events that it holds uncommitted
pub record IsLive (base b : WalletAggregate) : Type 0 where
  pub rebuilt : replay base b.uncommitted_events ≡ settled b base.version
  pub counted : b.version ≡ base.version + length b.uncommitted_events

handler-settled :
    (e : WalletEvent) (b : Body) (a : WalletAggregate) (v : ℕ)
    → handler e b (settled a v) ≡ settled (handler e b a) v
unfolding handler
handler-settled e (Body.created _) a v = refl
handler-settled e _ a v = refl

when-settled :
    (e : WalletEvent) (a : WalletAggregate) (v : ℕ) → when e (settled a v) ≡ settled (when e a) v
unfolding when
when-settled e a v =
    ap {A = WalletAggregate} (λ x. record x { updated_at = e.occurred_at })
      (handler-settled e e.body a v)

-- no handler touches the list of events or the version
pub handler_keeps :
    (e : WalletEvent) (b : Body) (a : WalletAggregate)
    → ((handler e b a).uncommitted_events ≡ a.uncommitted_events)
      × ((handler e b a).version ≡ a.version)
unfolding handler
handler_keeps e (Body.created _) a = (refl, refl)
handler_keeps e _ a = (refl, refl)

-- `_apply` records its event last
pub apply_records :
    (e : WalletEvent) (a : WalletAggregate)
    → (apply e a).uncommitted_events ≡ a.uncommitted_events ++ e ∷ []
unfolding apply when
apply_records e a = ap (λ xs. xs ++ e ∷ []) (handler_keeps e e.body a).0

replay-append :
    (a : WalletAggregate) (es : List WalletEvent) (e : WalletEvent)
    → replay a (es ++ e ∷ []) ≡ when e (replay a es)
unfolding replay
replay-append a es e = rw foldl-append

apply-rebuilt :
    (e : WalletEvent) {base b : WalletAggregate}
    → IsLive base b
    → replay base (b.uncommitted_events ++ e ∷ []) ≡ settled (when e b) base.version
apply-rebuilt e {base} {b} h =
    replay-append base b.uncommitted_events e
    ∙ ap (when e) h.rebuilt
    ∙ when-settled e b base.version

pub apply-IsLive :
    (e : WalletEvent) {base b : WalletAggregate} → IsLive base b → IsLive base (apply e b)
unfolding apply when
apply-IsLive e {base} {b} h = record {
  rebuilt = rw (handler_keeps e e.body b).0 (apply-rebuilt e h);
  counted = omega (
    arith,
    (handler_keeps e e.body b).1,
    h.counted,
    ap length (handler_keeps e e.body b).0,
    length-append {0} (handler e e.body b).uncommitted_events (e ∷ []),
  );
}

perform-IsLive :
    (fresh : Fresh) (op : Operation) {base b : WalletAggregate}
    → IsLive base b
    → IsLive base (perform fresh op b).1
perform-IsLive fresh op {base} {b} h = elim (perform_outcome fresh op b) [
  | inl same ↦ rw same h
  | inr applied ↦ rw applied (apply-IsLive (new_event fresh b (event_body op b)) h)
]

pub perform_all-IsLive :
    (calls : List (Fresh × Operation)) {base b : WalletAggregate}
    → IsLive base b
    → IsLive base (perform_all calls b)
unfolding perform_all
perform_all-IsLive [] h = h
perform_all-IsLive ((fresh, op) ∷ calls) h = perform_all-IsLive calls (perform-IsLive fresh op h)

-- After any calls on an aggregate with nothing uncommitted, whether they raised or not, replaying
-- the uncommitted events from where the aggregate began gives its fields, and its version has grown
-- by the number of those events.
pub perform_all-replay :
    (calls : List (Fresh × Operation)) (a : WalletAggregate)
    → a.uncommitted_events ≡ []
    → let b = perform_all calls a in
      (replay a b.uncommitted_events ≡ settled b a.version)
      × (b.version ≡ a.version + length b.uncommitted_events)
unfolding replay
perform_all-replay calls a fresh_start =
    let start : IsLive a a = record {
      rebuilt = rw fresh_start;
      counted = rw fresh_start (omega arith);
    } in
    let live = perform_all-IsLive calls start in (live.rebuilt, live.counted)
