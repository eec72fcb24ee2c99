-- ===== src/Bus.antt =====
-- The event bus of messaging/event_bus.py. Its lock has no counterpart, since code runs here one call
-- after the other; a handler is its `handle` or the function itself.
pub mod Handlers
pub mod Published
use microservice_wallet_serv.Base.{ℕ, Bool, true, false, List, [], ◌∷◌, ◌++◌, ◌==◌, if◌then◌else◌}
use microservice_wallet_serv.Base.Text.{same_text}
use microservice_wallet_serv.Errors.Exec.{Exec, pure, catch, ◌>>=◌, ◌>>◌}
use microservice_wallet_serv.Event.{EventKind, WalletEvent, kind, value}

abbrev pub EventHandler : Type 0 → Type 0
EventHandler S = WalletEvent → Exec S (Unit {0})

-- `_handlers`: the classes of events, by their kinds, with the handlers of each
abbrev pub Bus : Type 0 → Type 0
Bus S = List (EventKind × List (EventHandler S))

-- two kinds are one member of the enum
unfoldable pub same_kind : EventKind → EventKind → Bool
same_kind k j = same_text (value k) (value j)

module _ {S : Type 0} where
  -- `subscribe`
  unfoldable pub subscribe : EventKind → EventHandler S → Bus S → Bus S
  unfolding same_kind
  subscribe k h [] = (k, h ∷ []) ∷ []
  subscribe k h ((j, hs) ∷ bus) =
      if same_kind k j then (j, hs ++ h ∷ []) ∷ bus else (j, hs) ∷ subscribe k h bus

  -- `list(self._handlers[event_type])`, or no handlers
  unfoldable pub handlers_of : EventKind → Bus S → List (EventHandler S)
  unfolding same_kind
  handlers_of k [] = []
  handlers_of k ((j, hs) ∷ bus) = if same_kind k j then hs else handlers_of k bus

  -- the loop of `publish`: what a handler raises is logged
  unfoldable pub call_handlers : List (EventHandler S) → WalletEvent → Exec S (Unit {0})
  call_handlers [] e = pure tt
  call_handlers (h ∷ hs) e = catch (h e) (λ _. pure tt) >> call_handlers hs e

  -- `publish`
  unfoldable pub publish : Bus S → WalletEvent → Exec S (Unit {0})
  unfolding handlers_of call_handlers
  publish bus e = call_handlers (handlers_of (kind e.body) bus) e

  -- `clear_all_handlers`
  unfoldable pub clear_all_handlers : Bus S → Bus S
  clear_all_handlers bus = []

  -- `get_subscribed_events`
  unfoldable pub get_subscribed_events : Bus S → List EventKind
  get_subscribed_events [] = []
  get_subscribed_events ((k, _) ∷ bus) = k ∷ get_subscribed_events bus
