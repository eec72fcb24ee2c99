-- ===== src/Kafka/Reports.antt =====
-- What one delivery report of outbox_publisher.py does to the rows of the outbox.
use mathlib.Core.Path.{ap₂, subst}
use microservice_wallet_serv.Base.{
  ℕ, ◌+◌, ◌≤◌, ◌<◌, ◌≡◌, refl, sym, ap, ◌∙◌, inl, inr, Bool, true, false, ◌&&◌, some, none, All, [],
  ◌∷◌, arith, ==_sound, Bool-cases, Option-cases, Option, leb, ◌==◌, if◌then◌else◌,
}
use microservice_wallet_serv.Base.Text.{Text}
use microservice_wallet_serv.Errors.{Uuid, ok, err, outbox_not_found}
use microservice_wallet_serv.Errors.Exec.{modify, bind_run, ◌>>◌}
use microservice_wallet_serv.Outbox.{
  OutboxRow, Outbox, update_where, has_id, is_none, unprocessed, mark_as_failed, mark_as_published,
}
use microservice_wallet_serv.Outbox.Delivery.{IsSettled, mark_as_failed_lem, mark_as_published_lem}
use microservice_wallet_serv.Kafka.Publisher.{Report, find_row, bury, delivery_report}
use microservice_wallet_serv.Kafka.Work.{
  IsKeyed, row_work, work, IsKept, updated_IsKept, updated_serves,
}

update_where-absent :
    (id : Uuid) (f : OutboxRow → OutboxRow) (rows : Outbox)
    → has_id id rows ≡ false
    → update_where (λ r. r.id == id) f rows ≡ (0, rows)
unfolding update_where has_id
update_where-absent id f [] h = refl
update_where-absent id f (x ∷ rows) h = ground (arith, update_where-absent id f rows)

-- `mark_as_failed` on a row
abbrev fail_row : Text → OutboxRow → OutboxRow
fail_row error r = record r {
  error_message = some error;
  event = record r.event { retry_count = r.retry_count + 1 };
}

-- and the end of a row that has failed often enough
abbrev bury_row : ℕ → ℕ → OutboxRow → OutboxRow
bury_row retries now r =
    if leb retries r.retry_count then record r { processed_at = some now } else r

abbrev update_id : Uuid → (OutboxRow → OutboxRow) → Outbox → Outbox
update_id id f rows = (update_where (λ r. r.id == id) f rows).1

bury-nil : (retries now : ℕ) (id : Uuid) → bury retries now id [] ≡ []
unfolding bury find_row
bury-nil retries now id = refl

bury-skip :
    (retries now : ℕ) (id : Uuid) (x : OutboxRow) (rows : Outbox)
    → (x.id == id) ≡ false
    → bury retries now id (x ∷ rows) ≡ x ∷ bury retries now id rows
unfolding bury find_row update_where
bury-skip retries now id x rows other = elim (Option-cases (find_row id rows)) [
  | inl missing ↦ ground (arith, missing)
  | inr (row, found) ↦ ground (arith, found)
]

bury-hit :
    (retries now : ℕ) (id : Uuid) (x : OutboxRow) (rows : Outbox)
    → (x.id == id) ≡ true
    → has_id id rows ≡ false
    → bury retries now id (x ∷ rows) ≡ bury_row retries now x ∷ rows
unfolding bury find_row update_where
bury-hit retries now id x rows same absent =
    ground (arith, update_where-absent id (λ r. record r { processed_at = some now }) rows absent)

update_id-skip :
    (id : Uuid) (f : OutboxRow → OutboxRow) (x : OutboxRow) (rows : Outbox)
    → (x.id == id) ≡ false
    → update_id id f (x ∷ rows) ≡ x ∷ update_id id f rows
unfolding update_where
update_id-skip id f x rows other = ground arith

update_id-hit :
    (id : Uuid) (f : OutboxRow → OutboxRow) (x : OutboxRow) (rows : Outbox)
    → (x.id == id) ≡ true
    → has_id id rows ≡ false
    → update_id id f (x ∷ rows) ≡ f x ∷ rows
unfolding update_where
update_id-hit id f x rows same absent = ground (arith, update_where-absent id f rows absent)

-- a failure and what follows it are one update of the row with the id
bury-failed :
    (retries now : ℕ) (id : Uuid) (error : Text) (rows : Outbox)
    → IsKeyed rows
    → bury retries now id (update_id id (fail_row error) rows)
      ≡ update_id id (λ r. bury_row retries now (fail_row error r)) rows
unfolding IsKeyed update_where
bury-failed retries now id error [] keyed = bury-nil retries now id
bury-failed retries now id error (x ∷ rows) keyed = elim (Bool-cases (x.id == id)) [
  | inl same ↦
      let absent : has_id id rows ≡ false =
        ap (λ j. has_id j rows) (sym (==_sound x.id id same)) ∙ keyed.0 in
      ap (bury retries now id) (update_id-hit id (fail_row error) x rows same absent)
      ∙ bury-hit retries now id (fail_row error x) rows same absent
      ∙ sym (update_id-hit id (λ r. bury_row retries now (fail_row error r)) x rows same absent)
  | inr other ↦
      ap (bury retries now id) (update_id-skip id (fail_row error) x rows other)
      ∙ bury-skip retries now id x (update_id id (fail_row error) rows) other
      ∙ ap (λ xs. x ∷ xs) (bury-failed retries now id error rows keyed.1)
      ∙ sym (update_id-skip id (λ r. bury_row retries now (fail_row error r)) x rows other)
]

fail_row-served :
    (retries now : ℕ) (error : Text) (r : OutboxRow)
    → is_none r.processed_at ≡ true
    → row_work retries (bury_row retries now (fail_row error r)) < row_work retries r
unfolding row_work is_none
fail_row-served retries now error r waiting = ground arith

fail_row-lowers :
    (retries now : ℕ) (error : Text) (r : OutboxRow)
    → row_work retries (bury_row retries now (fail_row error r)) ≤ row_work retries r
unfolding row_work is_none
fail_row-lowers retries now error r = ground arith

-- a report on an event of the table keeps it well-formed, and leaves fewer reports to come if the
-- event was still to be published
pub record IsServed (retries : ℕ) (id : Uuid) (rows rows' : Outbox) : Type 0 where
  pub kept : IsKept retries rows rows'
  pub served : has_id id (unprocessed rows) ≡ true → work retries rows' < work retries rows

bury_row-settles :
    (retries now : ℕ) (error : Text) (r : OutboxRow)
    → IsSettled r
    → IsSettled (bury_row retries now (fail_row error r))
unfolding is_none
bury_row-settles retries now error r h = ground (arith, h)

bury_row-id :
    (retries now : ℕ) (error : Text) (r : OutboxRow)
    → (bury_row retries now (fail_row error r)).id ≡ r.id
bury_row-id retries now error r = ground arith

failed-IsServed :
    (retries now : ℕ) (id : Uuid) (error : Text) (rows : Outbox)
    → IsKeyed rows
    → All IsSettled rows
    → IsServed retries id rows (update_id id (λ r. bury_row retries now (fail_row error r)) rows)
failed-IsServed retries now id error rows keyed settled = record {
  kept =
      updated_IsKept retries id (λ r. r.id == id) (λ r. bury_row retries now (fail_row error r))
        (bury_row-id retries now error) (bury_row-settles retries now error)
        (λ r _. fail_row-lowers retries now error r)
        (λ r _ same waiting. (same, fail_row-served retries now error r waiting)) rows keyed
        settled;
  served =
      updated_serves retries id (λ r. r.id == id) (λ r. bury_row retries now (fail_row error r))
        (bury_row-id retries now error) (bury_row-settles retries now error)
        (λ r _. fail_row-lowers retries now error r)
        (λ r _ same waiting. (same, fail_row-served retries now error r waiting)) rows settled;
}

abbrev publish_row : ℕ → OutboxRow → OutboxRow
publish_row now r = record r { published_at = some now; processed_at = some now }

abbrev is_unpublished : Uuid → OutboxRow → Bool
is_unpublished id r = r.id == id && is_none r.published_at

publish_row-lowers :
    (retries now : ℕ) (id : Uuid) (r : OutboxRow)
    → is_unpublished id r ≡ true
    → row_work retries (publish_row now r) ≤ row_work retries r
unfolding row_work is_none
publish_row-lowers retries now id r h = ground arith

publish_row-serves :
    (retries now : ℕ) (id : Uuid) (r : OutboxRow)
    → IsSettled r
    → (r.id == id) ≡ true
    → is_none r.processed_at ≡ true
    → (is_unpublished id r ≡ true) × (row_work retries (publish_row now r) < row_work retries r)
unfolding row_work is_none
publish_row-serves retries now id r settled same waiting = ground (arith, settled)

published-IsServed :
    (retries now : ℕ) (id : Uuid) (rows : Outbox)
    → IsKeyed rows
    → All IsSettled rows
    → IsServed retries id rows (update_where (is_unpublished id) (publish_row now) rows).1
unfolding is_none
published-IsServed retries now id rows keyed settled = record {
  kept =
      updated_IsKept retries id (is_unpublished id) (publish_row now) (λ r. refl) (λ r _ _. refl)
        (publish_row-lowers retries now id) (publish_row-serves retries now id) rows keyed settled;
  served =
      updated_serves retries id (is_unpublished id) (publish_row now) (λ r. refl) (λ r _ _. refl)
        (publish_row-lowers retries now id) (publish_row-serves retries now id) rows settled;
}

mark_as_failed-state :
    (id : Uuid) (error : Text) (rows : Outbox)
    → (mark_as_failed id error rows).1 ≡ update_id id (fail_row error) rows
unfolding mark_as_failed
mark_as_failed-state id error rows = ground arith

mark_as_published-state :
    (now : ℕ) (id : Uuid) (rows : Outbox)
    → (mark_as_published now id rows).1
      ≡ (update_where (is_unpublished id) (publish_row now) rows).1
unfolding mark_as_published
mark_as_published-state now id rows = ground arith

failed-run :
    (id : Uuid) (error : Text) (rows : Outbox)
    → has_id id rows ≡ true
    → mark_as_failed id error rows ≡ (ok tt, update_id id (fail_row error) rows)
failed-run id error rows known =
    ap₂ (λ r t. (r, t))
      ((mark_as_failed_lem id error rows).1
        ∙ ap (λ b. if b then ok tt else err (outbox_not_found id)) known)
      (mark_as_failed-state id error rows)

failed_report-run :
    (retries now : ℕ) (id : Uuid) (error : Text) (rows : Outbox)
    → IsKeyed rows
    → has_id id rows ≡ true
    → (mark_as_failed id error >> modify (bury retries now id)) rows
      ≡ (ok tt, update_id id (λ r. bury_row retries now (fail_row error r)) rows)
failed_report-run retries now id error rows keyed known =
    bind_run (mark_as_failed id error) (λ _. modify (bury retries now id)) rows
      (failed-run id error rows known)
    ∙ ap (λ t. (ok tt, t)) (bury-failed retries now id error rows keyed)

-- a report on an event of the table raises nothing, and serves it
pub delivery_report_lem :
    (retries now : ℕ) (id : Uuid) (error : Option Text) (rows : Outbox)
    → IsKeyed rows
    → All IsSettled rows
    → has_id id rows ≡ true
    → let report : Report = record { event_id = id; error = error } in
      ((delivery_report retries now report rows).0 ≡ ok tt)
      × IsServed retries id rows (delivery_report retries now report rows).1
unfolding delivery_report
delivery_report_lem retries now id (some error) rows keyed settled known =
    let run = failed_report-run retries now id error rows keyed known in
    (
      ap (λ p. p.0) run,
      subst (IsServed retries id rows) (sym (ap (λ p. p.1) run))
          (failed-IsServed retries now id error rows keyed settled),
    )
delivery_report_lem retries now id none rows keyed settled known = (
  (mark_as_published_lem now now id rows settled known).0,
  subst (IsServed retries id rows) (sym (mark_as_published-state now id rows))
      (published-IsServed retries now id rows keyed settled),
)
