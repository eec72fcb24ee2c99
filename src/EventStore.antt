-- ===== src/EventStore.antt =====
-- The write side: infrastructure/apps/eventstore/models.py, infrastructure/repos/event_store_repo.py
-- and infrastructure/repos/wallet/wallet_command_repo.py.
pub mod Append
pub mod Load
pub mod Stored
pub mod Concurrency
pub mod CommandRepo
pub mod Rows
pub mod SaveLoad
mod Tests
use microservice_wallet_serv.Base.{
  ℕ, Bool, true, false, ◌&&◌, ◌||◌, Option, none, some, List, [], ◌∷◌, ◌++◌, leb, ◌==◌,
  if◌then◌else◌,
}
use microservice_wallet_serv.Base.Text.{Text, same_text}
use microservice_wallet_serv.Errors.{Uuid, Result, ok, err, integrity_error}
use microservice_wallet_serv.Errors.Exec.{Exec}
use microservice_wallet_serv.Event.Json.{Fields}

-- a row of `event_store`
pub record EventRow : Type 0 where
  pub id : Uuid
  pub aggregate_id : Uuid
  pub aggregate_type : Text
  pub aggregate_version : ℕ
  pub event_type : Text
  pub event_payload : Fields
  pub metadata : Fields
  pub created_at : ℕ

-- the primary key, and `unique_aggregate_event_version`
unfoldable pub conflicts : EventRow → List EventRow → Bool
conflicts r [] = false
conflicts r (x ∷ xs) =
    (r.id == x.id
      || (r.aggregate_id == x.aggregate_id && r.aggregate_version == x.aggregate_version))
    || conflicts r xs

-- `EventStore.objects.create(…)`
unfoldable pub create_row : EventRow → Exec (List EventRow) (Unit {0})
create_row r rows =
    if conflicts r rows then (err integrity_error, rows) else (ok tt, rows ++ r ∷ [])

-- `filter(aggregate_id=…, aggregate_type=…)`
unfoldable pub stream : Uuid → Text → List EventRow → List EventRow
stream id type_ [] = []
stream id type_ (x ∷ xs) =
    if x.aggregate_id == id && same_text x.aggregate_type type_
    then x ∷ stream id type_ xs
    else stream id type_ xs

-- insertion before the first row of a later version, or of the same
unfoldable pub insert_by_version : EventRow → List EventRow → List EventRow
insert_by_version r [] = r ∷ []
insert_by_version r (x ∷ xs) =
    if leb r.aggregate_version x.aggregate_version then r ∷ x ∷ xs else x ∷ insert_by_version r xs

-- `order_by("aggregate_version")`; the versions of one aggregate are distinct
unfoldable pub order_by_version : List EventRow → List EventRow
unfolding insert_by_version
order_by_version [] = []
order_by_version (x ∷ xs) = insert_by_version x (order_by_version xs)
