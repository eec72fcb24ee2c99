-- ===== src/Outbox/Admin.antt =====
-- The two actions of infrastructure/apps/outbox/admin.py on the outbox's rows.
use microservice_wallet_serv.Base.{
  ℕ, suc, ◌-◌, ◌*◌, ◌≡◌, refl, ap, ◌∙◌, true, false, not, Bool, ◌&&◌, ◌||◌, none, List, [], ◌∷◌,
  arith, ltb, ◌==◌, if◌then◌else◌,
}
use microservice_wallet_serv.Errors.{Uuid}
use microservice_wallet_serv.Outbox.{OutboxRow, Outbox, update_where, is_none, unprocessed, has_id}

unfoldable pub is_listed : Uuid → List Uuid → Bool
is_listed id [] = false
is_listed id (j ∷ ids) = j == id || is_listed id ids

-- `mark_as_unprocessed`, on the rows whose ids are selected
unfoldable pub mark_as_unprocessed : List Uuid → Outbox → ℕ × Outbox
unfolding update_where is_listed
mark_as_unprocessed ids =
    update_where (λ r. is_listed r.id ids)
      (λ r. record r {
        processed_at = none;
        published_at = none;
        event = record r.event { retry_count = 0 };
        error_message = none;
      })

-- `timedelta(days=7)`, in microseconds
abbrev pub seven_days : ℕ
seven_days = 7 * 24 * 60 * 60 * 1000000

-- `filter(processed_at__isnull=False, created_at__lt=cutoff)`
unfoldable pub is_old_processed : ℕ → OutboxRow → Bool
unfolding is_none
is_old_processed cutoff r = not (is_none r.processed_at) && ltb r.created_at cutoff

-- `filter(…).delete()`: the number of rows deleted, and the rows left
unfoldable pub delete_where : (OutboxRow → Bool) → Outbox → ℕ × Outbox
delete_where test [] = (0, [])
delete_where test (x ∷ xs) =
    let (n, ys) = delete_where test xs in if test x then (suc n, ys) else (n, x ∷ ys)

-- `delete_processed_old`
unfoldable pub delete_processed_old : ℕ → Outbox → ℕ × Outbox
unfolding delete_where is_old_processed
delete_processed_old now = delete_where (is_old_processed (now - seven_days))

deleted-unprocessed :
    (cutoff : ℕ) (rows : Outbox)
    → unprocessed (delete_where (is_old_processed cutoff) rows).1 ≡ unprocessed rows
unfolding delete_where is_old_processed unprocessed is_none
deleted-unprocessed cutoff [] = refl
deleted-unprocessed cutoff (x ∷ rows) = ground (arith, deleted-unprocessed cutoff rows)

listed_same :
    (ids : List Uuid) (id j : Uuid) → (j == id) ≡ true → is_listed j ids ≡ is_listed id ids
listed_same ids id j same = ap (λ k. is_listed k ids) (ground (arith, same))

none_listed : (b : Bool) → false ≡ (b && false || false)
none_listed true = refl
none_listed false = refl

reset-unprocessed :
    (ids : List Uuid) (id : Uuid) (rows : Outbox)
    → has_id id (unprocessed (mark_as_unprocessed ids rows).1)
      ≡ ((is_listed id ids && has_id id rows) || has_id id (unprocessed rows))
unfolding mark_as_unprocessed update_where unprocessed has_id is_none
reset-unprocessed ids id [] = none_listed (is_listed id ids)
reset-unprocessed ids id (x ∷ rows) =
    ground (arith, listed_same ids id x.id, reset-unprocessed ids id rows)

-- The admin's actions lose nothing that waits: deleting the old processed rows leaves the same rows
-- to publish, and after `mark_as_unprocessed` the ids that wait are those that waited and the
-- selected ones, which the same deletion then does not touch.
pub admin_actions_lem :
    (now : ℕ) (ids : List Uuid) (id : Uuid) (rows : Outbox)
    → let selected = (mark_as_unprocessed ids rows).1 in
      (unprocessed (delete_processed_old now rows).1 ≡ unprocessed rows)
      × (has_id id (unprocessed selected)
          ≡ ((is_listed id ids && has_id id rows) || has_id id (unprocessed rows)))
      × (has_id id (unprocessed (delete_processed_old now selected).1)
          ≡ ((is_listed id ids && has_id id rows) || has_id id (unprocessed rows)))
unfolding delete_processed_old
admin_actions_lem now ids id rows =
    let selected = (mark_as_unprocessed ids rows).1 in
    let waits = reset-unprocessed ids id rows in
    (
      deleted-unprocessed (now - seven_days) rows,
      waits,
      ap (has_id id) (deleted-unprocessed (now - seven_days) selected) ∙ waits,
    )
