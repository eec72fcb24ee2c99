-- ===== src/ReadModel/Runner.antt =====
-- `WalletProjectionRunner` of projector.py, and management/commands/rebuild_wallet_projection.py.
use microservice_wallet_serv.Base.{
  ℕ, not, Option, none, some, List, [], ◌∷◌, leb, ◌==◌, if◌then◌else◌,
}
use microservice_wallet_serv.Base.Text.{text, same_text}
use microservice_wallet_serv.Errors.{Uuid}
use microservice_wallet_serv.Errors.Exec.{Exec, pure, gets, lift, modify, atomic, ◌>>=◌, ◌>>◌}
use microservice_wallet_serv.Event.{WalletEvent}
use microservice_wallet_serv.Event.Json.{Codec}
use microservice_wallet_serv.Event.Serial.{Fresh, event_from_dict}
use microservice_wallet_serv.EventStore.{EventRow}
use microservice_wallet_serv.ReadModel.{ReadSide, ProjectionState}
use microservice_wallet_serv.ReadModel.Projector.{Projection, project}

abbrev pub runner_version : ℕ
runner_version = 1

abbrev default_state : ℕ → Option ProjectionState → ProjectionState
default_state version none = record { version = version; last_event_id = none }
default_state version (some state) = state

-- `ProjectionState.objects.get_or_create(projection_name="wallet", defaults={"version": …})`
unfoldable pub get_or_create_state : ℕ → Exec ReadSide ProjectionState
get_or_create_state version = do
  found ← gets (λ s. s.projection)
  let state = default_state version found
  modify (λ s. record s { projection = some state })
  pure state

abbrev put_state : ProjectionState → Projection
put_state state = modify (λ s. record s { projection = some state })

-- the part that `apply` and `apply_from_event` share, on the event and the id to record
unfoldable pub run_projection : ℕ → Exec ReadSide WalletEvent → Option Uuid → Projection
unfolding get_or_create_state project
run_projection now load last = atomic (do
  state ← get_or_create_state runner_version
  if not (state.version == runner_version)
      then pure tt
      else do event ← load; project now event; put_state (record state { last_event_id = last }))

-- `apply`
unfoldable pub apply : Codec → Fresh → EventRow → Projection
unfolding run_projection
apply C fresh stored =
    run_projection fresh.now (lift (event_from_dict C fresh stored.event_type stored.event_payload))
      (some stored.id)

-- `apply_from_event`; the aggregate's id and version are not used
unfoldable pub apply_from_event : ℕ → WalletEvent → Projection
unfolding run_projection
apply_from_event now event = run_projection now (pure event) none

-- `filter(aggregate_type="Wallet")`
unfoldable pub wallet_rows : List EventRow → List EventRow
wallet_rows [] = []
wallet_rows (x ∷ xs) =
    if same_text x.aggregate_type (text "Wallet") then x ∷ wallet_rows xs else wallet_rows xs

unfoldable pub insert_by_created : EventRow → List EventRow → List EventRow
insert_by_created r [] = r ∷ []
insert_by_created r (x ∷ xs) =
    if leb r.created_at x.created_at then r ∷ x ∷ xs else x ∷ insert_by_created r xs

-- `order_by("created_at")`, equal times in the order of the rows
unfoldable pub order_by_created : List EventRow → List EventRow
unfolding insert_by_created
order_by_created [] = []
order_by_created (x ∷ xs) = insert_by_created x (order_by_created xs)

-- the loop: the id of the last record, unless there was none
unfoldable pub replay_rows :
    Codec → Fresh → List EventRow → Option Uuid → Exec ReadSide (Option Uuid)
unfolding project
replay_rows C fresh [] last = pure last
replay_rows C fresh (r ∷ rows) last = do
  event ← lift (event_from_dict C fresh r.event_type r.event_payload)
  project fresh.now event
  replay_rows C fresh rows (some r.id)

-- `Command.handle` of rebuild_wallet_projection
unfoldable pub rebuild : Codec → Fresh → List EventRow → Projection
unfolding get_or_create_state replay_rows wallet_rows order_by_created
rebuild C fresh rows = atomic (do
  state ← get_or_create_state 0
  put_state (record state { version = 0; last_event_id = none })
  modify (λ s. record s { wallets = [] })
  last ← replay_rows C fresh (order_by_created (wallet_rows rows)) none
  put_state (record { version = runner_version; last_event_id = last }))
