-- ===== src/Outbox.antt =====
-- The transactional outbox: domain/outbox/events.py, infrastructure/apps/outbox/models.py and
-- infrastructure/repos/outbox/orm_repository.py. An `OutboxEvent` is built from JSON values only,
-- so `_safe_json` and the test of `json.dumps` leave it as it is. No other session writes between
-- the attempts of one call.
pub mod Delivery
pub mod Admin
mod Tests
use microservice_wallet_serv.Base.{
  ℕ, zero, suc, ◌+◌, ◌-◌, max, Bool, true, false, not, ◌&&◌, ◌||◌, Option, none, some, List, [],
  ◌∷◌, ◌++◌, ltb, leb, ◌==◌, if◌then◌else◌,
}
use microservice_wallet_serv.Base.Text.{Text}
use microservice_wallet_serv.Errors.{
  Uuid, Result, ok, err, integrity_error, data_error, outbox_save, outbox_not_found,
  is_integrity_error,
}
use microservice_wallet_serv.Errors.Exec.{Exec, pure, raise, gets, atomic, catch, ◌>>=◌, ◌>>◌}
use microservice_wallet_serv.Event.Json.{Fields}

pub record OutboxEvent : Type 0 where
  pub id : Uuid
  pub event_type : Text
  pub event_payload : Fields
  pub aggregate_id : Uuid
  pub aggregate_type : Text
  pub trace_id : Option Uuid
  pub metadata : Fields
  pub created_at : ℕ
  pub retry_count : ℕ

-- a row of `event_outbox`
pub record OutboxRow : Type 0 where
  pub event : OutboxEvent
  pub open event use *
  pub aggregate_version : ℕ
  pub published_at : Option ℕ
  pub processed_at : Option ℕ
  pub error_message : Option Text

abbrev pub Outbox : Type 0
Outbox = List OutboxRow

-- `Max("aggregate_version")` over the aggregate's rows, `or 0`
unfoldable pub latest_version : Uuid → Outbox → ℕ
latest_version id [] = 0
latest_version id (x ∷ xs) =
    let rest = latest_version id xs in
    if x.aggregate_id == id then max x.aggregate_version rest else rest

-- the primary key, and `unique_aggregate_version`
unfoldable pub conflicts : OutboxRow → Outbox → Bool
conflicts r [] = false
conflicts r (x ∷ xs) =
    (r.id == x.id
      || (r.aggregate_id == x.aggregate_id && r.aggregate_version == x.aggregate_version))
    || conflicts r xs

unfoldable pub create_row : OutboxRow → Exec Outbox (Unit {0})
create_row r rows =
    if conflicts r rows then (err integrity_error, rows) else (ok tt, rows ++ r ∷ [])

abbrev pub pending_row : OutboxEvent → ℕ → OutboxRow
pending_row e version = record {
  event = e;
  aggregate_version = version;
  published_at = none;
  processed_at = none;
  error_message = none;
}

-- the body of the `try` in `save`
unfoldable pub save_once : OutboxEvent → Exec Outbox (Unit {0})
unfolding create_row
save_once e =
    atomic
      (do latest ← gets (latest_version e.aggregate_id); create_row (pending_row e (latest + 1)))

-- `for attempt in range(max_retries)`, by the attempts left
unfoldable pub save : ℕ → OutboxEvent → Exec Outbox (Unit {0})
unfolding save_once
save zero e = pure tt
save (suc left) e =
    let again = save left e in
    catch (save_once e) (λ x.
      if is_integrity_error x
      then (if ltb 0 left then again else raise (outbox_save e.aggregate_id))
      else raise x)

unfoldable pub insert_by_created : OutboxRow → Outbox → Outbox
insert_by_created r [] = r ∷ []
insert_by_created r (x ∷ xs) =
    if leb r.created_at x.created_at then r ∷ x ∷ xs else x ∷ insert_by_created r xs

-- `order_by('created_at')`, equal times in the order of the rows
unfoldable pub order_by_created : Outbox → Outbox
unfolding insert_by_created
order_by_created [] = []
order_by_created (x ∷ xs) = insert_by_created x (order_by_created xs)

unfoldable pub is_none : {A : Type 0} → Option A → Bool
is_none none = true
is_none (some _) = false

-- `filter(processed_at__isnull=True)`
unfoldable pub unprocessed : Outbox → Outbox
unprocessed [] = []
unprocessed (x ∷ xs) = if is_none x.processed_at then x ∷ unprocessed xs else unprocessed xs

abbrev pub first : ℕ → Outbox → List OutboxEvent
first zero xs = []
first (suc n) [] = []
first (suc n) (x ∷ xs) = x.event ∷ first n xs

-- `get_unpublished_events`
unfoldable pub get_unpublished_events : ℕ → Outbox → List OutboxEvent
unfolding unprocessed order_by_created
get_unpublished_events limit rows = first limit (order_by_created (unprocessed rows))

-- `filter(id=…, …).update(…)`: the number of rows that matched, and the rows after
unfoldable pub update_where : (OutboxRow → Bool) → (OutboxRow → OutboxRow) → Outbox → ℕ × Outbox
update_where test change [] = (0, [])
update_where test change (x ∷ xs) =
    let (n, ys) = update_where test change xs in
    if test x then (suc n, change x ∷ ys) else (n, x ∷ ys)

-- `objects.get(id=…)` succeeds
unfoldable pub has_id : Uuid → Outbox → Bool
has_id id [] = false
has_id id (x ∷ xs) = x.id == id || has_id id xs

-- `mark_as_published`
unfoldable pub mark_as_published : ℕ → Uuid → Exec Outbox (Unit {0})
mark_as_published now id rows =
    let (updated, rows') =
      update_where (λ r. r.id == id && is_none r.published_at)
        (λ r. record r { published_at = some now; processed_at = some now }) rows in
    if updated == 0
    then (if has_id id rows' then ok tt else err (outbox_not_found id), rows')
    else (ok tt, rows')

-- `mark_as_failed`
unfoldable pub mark_as_failed : Uuid → Text → Exec Outbox (Unit {0})
mark_as_failed id error rows =
    let (updated, rows') =
      update_where (λ r. r.id == id)
        (λ r. record r {
          error_message = some error;
          event = record r.event { retry_count = r.retry_count + 1 };
        })
        rows in
    if updated == 0 then (err (outbox_not_found id), rows') else (ok tt, rows')
