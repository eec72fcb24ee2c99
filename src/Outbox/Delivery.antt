-- ===== src/Outbox/Delivery.antt =====
-- What `save`, `mark_as_published` and `mark_as_failed` of orm_repository.py do to the rows.
use microservice_wallet_serv.Base.{
  ℕ, zero, suc, ◌+◌, ◌<◌, ◌≡◌, refl, ◌⊎◌, inl, inr, true, false, not, ◌&&◌, some, All, List, [],
  ◌∷◌, ◌++◌, arith, Bool-cases, ◌==◌, if◌then◌else◌,
}
use microservice_wallet_serv.Base.Text.{Text}
use microservice_wallet_serv.Errors.{
  Uuid, ok, err, outbox_not_found, outbox_save, integrity_error, is_integrity_error,
}
use microservice_wallet_serv.Outbox.{
  OutboxEvent, OutboxRow, Outbox, latest_version, conflicts, pending_row, save_once, save, is_none,
  update_where, unprocessed, has_id, mark_as_published, mark_as_failed,
}

-- the row that an event is saved as
abbrev pub queued : OutboxEvent → Outbox → OutboxRow
queued e rows = pending_row e (latest_version e.aggregate_id rows + 1)

save_once_lem :
    (e : OutboxEvent) (rows : Outbox)
    → ((conflicts (queued e rows) rows ≡ false)
        × (save_once e rows ≡ (ok tt, rows ++ queued e rows ∷ [])))
      ⊎ ((conflicts (queued e rows) rows ≡ true) × (save_once e rows ≡ (err integrity_error, rows)))
unfolding save_once
save_once_lem e rows = elim (Bool-cases (conflicts (queued e rows) rows)) [
  | inl clash ↦ inr (clash, ground arith)
  | inr free ↦ inl (free, ground arith)
]

-- a version past the latest clashes with no row's
conflicts-past :
    (e : OutboxEvent) (v : ℕ) (rows : Outbox)
    → latest_version e.aggregate_id rows < v
    → conflicts (pending_row e v) rows ≡ has_id e.id rows
unfolding conflicts latest_version has_id
conflicts-past e v [] h = refl
conflicts-past e v (x ∷ rows) h = ground (arith, conflicts-past e v rows)

save_attempts :
    (left : ℕ) (e : OutboxEvent) (rows : Outbox)
    → save (suc left) e rows ≡ (
        if conflicts (queued e rows) rows
        then (err (outbox_save e.aggregate_id), rows)
        else (ok tt, rows ++ queued e rows ∷ []))
unfolding save is_integrity_error
save_attempts zero e rows = ground (arith, save_once_lem e rows)
save_attempts (suc left) e rows = ground (arith, save_once_lem e rows, save_attempts left e rows)

pub save_lem :
    (left : ℕ) (e : OutboxEvent) (rows : Outbox)
    → save (suc left) e rows ≡ (
        if has_id e.id rows
        then (err (outbox_save e.aggregate_id), rows)
        else (ok tt, rows ++ queued e rows ∷ []))
save_lem left e rows =
    rw (← conflicts-past e (latest_version e.aggregate_id rows + 1) rows (omega arith))
      (save_attempts left e rows)

latest_version_bound :
    (id : Uuid) (rows : Outbox) (r : OutboxRow) (v : ℕ)
    → latest_version id rows < v
    → r.aggregate_id ≡ id
    → r.aggregate_version ≡ v
    → latest_version id (rows ++ r ∷ []) ≡ v
unfolding latest_version
latest_version_bound id [] r v h same at = ground arith
latest_version_bound id (x ∷ rows) r v h same at = ground (arith, latest_version_bound id rows r v)

-- The versions of one aggregate's rows count up: after a save that goes through, with at least one
-- attempt allowed, the aggregate's latest version is one more.
save_next_version :
    (left : ℕ) (e : OutboxEvent) (rows : Outbox)
    → (save (suc left) e rows).0 ≡ ok tt
    → latest_version e.aggregate_id (save (suc left) e rows).1
      ≡ latest_version e.aggregate_id rows + 1
save_next_version left e rows h = elim (Bool-cases (has_id e.id rows)) [
  | inl taken ↦ ground (arith, save_lem left e rows)
  | inr free ↦ rw (save_lem left e rows) (
      rw free (
        latest_version_bound e.aggregate_id rows (queued e rows)
          (latest_version e.aggregate_id rows + 1) (omega arith) refl refl))
]

-- No row is published that is not processed too.
abbrev pub IsSettled : OutboxRow → Type 0
IsSettled r = is_none r.published_at ≡ false → is_none r.processed_at ≡ false

abbrev published : ℕ → Uuid → Outbox → ℕ × Outbox
published now id =
    update_where (λ r. r.id == id && is_none r.published_at)
      (λ r. record r { published_at = some now; processed_at = some now })

-- the UPDATE leaves no pending row with the id
published-unprocessed :
    (now : ℕ) (id : Uuid) (rows : Outbox)
    → All IsSettled rows
    → has_id id (unprocessed (published now id rows).1) ≡ false
unfolding update_where has_id unprocessed is_none
published-unprocessed now id [] h = refl
published-unprocessed now id (x ∷ rows) h =
    ground (arith, h.0, published-unprocessed now id rows h.1)

published_again :
    (now later : ℕ) (id : Uuid) (rows : Outbox)
    → published later id (published now id rows).1 ≡ (0, (published now id rows).1)
unfolding update_where is_none
published_again now later id [] = refl
published_again now later id (x ∷ rows) = ground (arith, published_again now later id rows)

has_id-published :
    (now : ℕ) (id : Uuid) (rows : Outbox) → has_id id (published now id rows).1 ≡ has_id id rows
unfolding update_where has_id
has_id-published now id [] = refl
has_id-published now id (x ∷ rows) = ground (arith, has_id-published now id rows)

-- Where every published row is processed too, marking a known event as published succeeds, leaves
-- no row with its id to publish, and may be repeated: a second call succeeds and changes nothing.
pub mark_as_published_lem :
    (now later : ℕ) (id : Uuid) (rows : Outbox)
    → All IsSettled rows
    → has_id id rows ≡ true
    → let rows' = (mark_as_published now id rows).1 in
      ((mark_as_published now id rows).0 ≡ ok tt)
      × (has_id id (unprocessed rows') ≡ false)
      × (mark_as_published later id rows' ≡ (ok tt, rows'))
unfolding mark_as_published
mark_as_published_lem now later id rows settled known = (
  ground (arith, has_id-published now id rows),
  ground (arith, published-unprocessed now id rows settled),
  ground (arith, published_again now later id rows, has_id-published now id rows),
)

abbrev failed : Uuid → Text → Outbox → ℕ × Outbox
failed id error =
    update_where (λ r. r.id == id)
      (λ r. record r {
        error_message = some error;
        event = record r.event { retry_count = r.retry_count + 1 };
      })

abbrev pub row_ids : Outbox → List Uuid
row_ids [] = []
row_ids (x ∷ rows) = x.id ∷ row_ids rows

unprocessed-failed :
    (id : Uuid) (error : Text) (rows : Outbox)
    → row_ids (unprocessed (failed id error rows).1) ≡ row_ids (unprocessed rows)
unfolding update_where unprocessed is_none
unprocessed-failed id error [] = refl
unprocessed-failed id error (x ∷ rows) = ground (arith, unprocessed-failed id error rows)

failed_count :
    (id : Uuid) (error : Text) (rows : Outbox)
    → ((failed id error rows).0 == 0) ≡ not (has_id id rows)
unfolding update_where has_id
failed_count id error [] = refl
failed_count id error (x ∷ rows) = ground (arith, failed_count id error rows)

-- A failed delivery loses nothing: after `mark_as_failed` the same rows wait to be published, in
-- the same order; and it raises OutboxNotFoundError exactly for an id that no row has.
pub mark_as_failed_lem :
    (id : Uuid) (error : Text) (rows : Outbox)
    → (row_ids (unprocessed (mark_as_failed id error rows).1) ≡ row_ids (unprocessed rows))
      × ((mark_as_failed id error rows).0
          ≡ (if has_id id rows then ok tt else err (outbox_not_found id)))
unfolding mark_as_failed
mark_as_failed_lem id error rows =
    (ground (arith, unprocessed-failed id error rows), ground (arith, failed_count id error rows))
