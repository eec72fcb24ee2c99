-- ===== src/Kafka/Rounds.antt =====
-- What the loop of outbox_publisher.py does to the outbox, round by round.
use mathlib.Core.Path.{ap₂, subst}
use microservice_wallet_serv.Base.{
  ℕ, ◌≤◌, ◌<◌, ◌≡◌, refl, sym, ap, ◌∙◌, ◌⊎◌, inl, inr, true, All, length, List, [], ◌∷◌, ◌++◌,
  append_assoc, append-nil, arith, Bool-cases,
}
use microservice_wallet_serv.Errors.{Uuid, ok}
use microservice_wallet_serv.Errors.Exec.{bind_run, catch_run, modify}
use microservice_wallet_serv.Outbox.{
  OutboxEvent, OutboxRow, Outbox, has_id, is_none, unprocessed, get_unpublished_events,
}
use microservice_wallet_serv.Outbox.Delivery.{IsSettled}
use microservice_wallet_serv.Kafka.Publisher.{
  Message, queued, Report, Producer, Publisher, message, delivery_report, handle_reports, flush,
  queue_event, queue_events, publish_fetched, publish_events, publish_round, start,
}
use microservice_wallet_serv.Kafka.Fetch.{
  event_ids, AreKnown, fetched_wait, fetched_known, fetched_nothing,
}
use microservice_wallet_serv.Kafka.Work.{IsKeyed, row_work, work, IsKept}
use microservice_wallet_serv.Kafka.Reports.{delivery_report_lem}

unfoldable pub message_ids : List Message → List Uuid
message_ids [] = []
message_ids (m ∷ ms) = m.event_id ∷ message_ids ms

unfoldable pub report_ids : List Report → List Uuid
report_ids [] = []
report_ids (r ∷ rs) = r.event_id ∷ report_ids rs

-- A producer that takes every message, and whose flush reports on each message in flight, be it with
-- an error or without one.
pub record IsReliable (p : Producer) : Type 0 where
  pub takes : (m : Message) (ms : List Message) → p.produce m ms ≡ queued
  pub reports : (ms : List Message) → report_ids (p.flush ms).0 ≡ message_ids ms
  pub clears : (ms : List Message) → (p.flush ms).1 ≡ []

IsKept-trans :
    (retries : ℕ) {a b c : Outbox} → IsKept retries a b → IsKept retries b c → IsKept retries a c
IsKept-trans retries h k = record {
  keyed = k.keyed;
  settled = k.settled;
  same_ids = λ j. k.same_ids j ∙ h.same_ids j;
  no_more = omega (arith, h.no_more, k.no_more);
}

kept_known :
    (retries : ℕ) {a b : Outbox} (ids : List Uuid)
    → IsKept retries a b
    → AreKnown a ids
    → AreKnown b ids
kept_known retries [] h known = tt
kept_known retries (id ∷ ids) h known = (h.same_ids id ∙ known.0, kept_known retries ids h known.1)

IsKept-refl :
    (retries : ℕ) (rows : Outbox) → IsKeyed rows → All IsSettled rows → IsKept retries rows rows
IsKept-refl retries rows keyed settled = record {
  keyed = keyed;
  settled = settled;
  same_ids = λ j. refl;
  no_more = omega arith;
}

module _ (retries now : ℕ) (producer : Producer) where
  handle_reports_lem :
      (rs : List Report) (rows : Outbox)
      → IsKeyed rows
      → All IsSettled rows
      → AreKnown rows (report_ids rs)
      → (rows' : Outbox) × (handle_reports retries now producer rs rows ≡ (ok tt, rows'))
        × IsKept retries rows rows'
  unfolding handle_reports report_ids
  handle_reports_lem [] rows keyed settled known =
      (rows, refl, IsKept-refl retries rows keyed settled)
  handle_reports_lem (r ∷ rs) rows keyed settled known =
      let (went, served) =
        delivery_report_lem retries now r.event_id r.error rows keyed settled known.0 in
      let next = (delivery_report retries now r rows).1 in
      let (rows', run, kept) =
        handle_reports_lem rs next served.kept.keyed served.kept.settled
          (kept_known retries (report_ids rs) served.kept known.1) in
      (
        rows',
        bind_run (delivery_report retries now r) (λ _. handle_reports retries now producer rs) rows
              (ap₂ (λ x t. (x, t)) went refl)
            ∙ run,
        IsKept-trans retries served.kept kept,
      )

  -- the first report's event was waiting: fewer reports are to come
  handle_reports_served :
      (rs : List Report) (id : Uuid) (ids : List Uuid) (rows : Outbox)
      → report_ids rs ≡ id ∷ ids
      → IsKeyed rows
      → All IsSettled rows
      → AreKnown rows (id ∷ ids)
      → has_id id (unprocessed rows) ≡ true
      → (rows' : Outbox) × (handle_reports retries now producer rs rows ≡ (ok tt, rows'))
        × IsKept retries rows rows'
        × (work retries rows' < work retries rows)
  unfolding handle_reports report_ids
  handle_reports_served [] id ids rows same keyed settled known waiting = cc
  handle_reports_served (r ∷ rs) id ids rows same keyed settled known waiting =
      let head : id ≡ r.event_id = cc in
      let tail : ids ≡ report_ids rs = cc in
      let (went, served) =
        delivery_report_lem retries now r.event_id r.error rows keyed settled
          (ap (λ j. has_id j rows) (sym head) ∙ known.0) in
      let next = (delivery_report retries now r rows).1 in
      let (rows', run, kept) =
        handle_reports_lem rs next served.kept.keyed served.kept.settled
          (kept_known retries (report_ids rs) served.kept (subst (AreKnown rows) tail known.1)) in
      (
        rows',
        bind_run (delivery_report retries now r) (λ _. handle_reports retries now producer rs) rows
              (ap₂ (λ x t. (x, t)) went refl)
            ∙ run,
        IsKept-trans retries served.kept kept,
        omega (
          arith,
          kept.no_more,
          served.served (ap (λ j. has_id j (unprocessed rows)) (sym head) ∙ waiting),
        ),
      )

  queue_event_run :
      IsReliable producer
      → (e : OutboxEvent) (rows : Outbox) (fl : List Message)
      → queue_event retries now producer e (record { outbox = rows; in_flight = fl })
        ≡ (ok tt, record { outbox = rows; in_flight = fl ++ message e ∷ [] })
  unfolding queue_event
  queue_event_run reliable e rows fl = rw (queue_event, reliable.takes (message e) fl) refl

  queue_events_lem :
      IsReliable producer
      → (es : List OutboxEvent) (rows : Outbox) (fl : List Message)
      → (ms : List Message) × (queue_events retries now producer es
            (record { outbox = rows; in_flight = fl })
          ≡ (ok tt, record { outbox = rows; in_flight = fl ++ ms }))
        × (message_ids ms ≡ event_ids es)
  unfolding queue_events message_ids event_ids
  queue_events_lem reliable [] rows fl =
      ([], ap (λ l. (ok tt, record { outbox = rows; in_flight = l })) (sym (append-nil fl)), refl)
  queue_events_lem reliable (e ∷ es) rows fl =
      let (ms, run, ids) = queue_events_lem reliable es rows (fl ++ message e ∷ []) in
      (
        message e ∷ ms,
        bind_run (queue_event retries now producer e) (λ _. queue_events retries now producer es) _
              (queue_event_run reliable e rows fl)
            ∙ run
            ∙ ap (λ l. (ok tt, record { outbox = rows; in_flight = l }))
                (append_assoc fl (message e ∷ []) ms),
        ap (λ l. e.id ∷ l) ids,
      )

  abbrev idle : Outbox → Publisher
  idle rows = record { outbox = rows; in_flight = [] }

  flush_run :
      IsReliable producer
      → (ms : List Message) (rows : Outbox) {rows' : Outbox}
      → handle_reports retries now producer (producer.flush ms).0 rows ≡ (ok tt, rows')
      → flush retries now producer (record { outbox = rows; in_flight = ms }) ≡ (ok tt, idle rows')
  unfolding flush
  flush_run reliable ms rows run =
      ap₂ (λ p l. (p.0, record { outbox = p.1; in_flight = l })) run (reliable.clears ms)

  -- how a round that starts with nothing in flight ends
  unfoldable Ends : Outbox → Type 0
  Ends rows =
      (rows' : Outbox) × (publish_events retries now producer (idle rows) ≡ (ok tt, idle rows'))
      × IsKept retries rows rows'
      × ((unprocessed rows ≡ []) ⊎ (work retries rows' < work retries rows))

  fetched-Ends :
      IsReliable producer
      → (es : List OutboxEvent) (rows : Outbox) → IsKeyed rows
      → All IsSettled rows
      → get_unpublished_events 20 rows ≡ es
      → Ends rows
  unfolding Ends publish_fetched publish_events event_ids
  fetched-Ends reliable [] rows keyed settled h = (
    rows,
    ap (λ l. publish_fetched retries now producer l (idle rows)) h,
    IsKept-refl retries rows keyed settled,
    inl (fetched_nothing 19 rows h),
  )
  fetched-Ends reliable (e ∷ es) rows keyed settled h =
      let (ms, run, ids) = queue_events_lem reliable (e ∷ es) rows [] in
      let known = subst (λ l. AreKnown rows (event_ids l)) h (fetched_known 20 rows) in
      let waiting =
        subst (λ l. AreKnown (unprocessed rows) (event_ids l)) h (fetched_wait 20 rows) in
      let (rows', reported, kept, less) =
        handle_reports_served (producer.flush ms).0 e.id (event_ids es) rows
          (reliable.reports ms ∙ ids) keyed settled known waiting.0 in
      (
        rows',
        ap (λ l. publish_fetched retries now producer l (idle rows)) h
            ∙ bind_run (queue_events retries now producer (e ∷ es))
                (λ _. flush retries now producer) (idle rows) run
            ∙ flush_run reliable ms rows reported,
        kept,
        inr less,
      )

  publish_round_lem :
      IsReliable producer
      → (rows : Outbox) → IsKeyed rows
      → All IsSettled rows
      → (rows' : Outbox) × (publish_round retries now producer (idle rows) ≡ idle rows')
        × IsKept retries rows rows'
        × ((unprocessed rows ≡ []) ⊎ (work retries rows' < work retries rows))
  unfolding Ends publish_round
  publish_round_lem reliable rows keyed settled =
      let (rows', run, kept, progress) =
        fetched-Ends reliable (get_unpublished_events 20 rows) rows keyed settled refl in
      (
        rows',
        ap (λ p. p.1)
            (catch_run (publish_events retries now producer)
              (λ _. modify λ t. record t { in_flight = [] }) (idle rows) run),
        kept,
        progress,
      )

row_work-waiting :
    (retries : ℕ) (r : OutboxRow) → is_none r.processed_at ≡ true → 1 ≤ row_work retries r
unfolding row_work
row_work-waiting retries r h = ground arith

-- no work is left exactly when nothing waits
work-zero : (retries : ℕ) (rows : Outbox) → work retries rows ≡ 0 → unprocessed rows ≡ []
unfolding work unprocessed
work-zero retries [] h = refl
work-zero retries (x ∷ rows) h = elim (Bool-cases (is_none x.processed_at)) [
  | inl waiting ↦ absurd (omega (arith, row_work-waiting retries x waiting))
  | inr done ↦ rw done (work-zero retries rows (omega arith))
]

zero-work : (retries : ℕ) (rows : Outbox) → unprocessed rows ≡ [] → work retries rows ≡ 0
unfolding work unprocessed row_work
zero-work retries [] h = refl
zero-work retries (x ∷ rows) h = elim (Bool-cases (is_none x.processed_at)) [
  | inl waiting ↦ ground (arith, waiting)
  | inr done ↦ ground (arith, done, zero-work retries rows)
]

-- Start the publisher with nothing in flight on a table whose ids are distinct and whose published
-- rows are processed, and let each round have a producer that takes every message and whose
-- flush reports on each message in flight, successes and errors in any mixture. After as many rounds
-- as the waiting rows can still fail, at least one for each (`work`), no row waits to be published
-- any more, and the table has the same ids as before.
pub start_drains :
    (retries : ℕ) (rounds : List (ℕ × Producer)) (rows : Outbox)
    → IsKeyed rows
    → All IsSettled rows
    → All (λ (r : ℕ × Producer). IsReliable r.1) rounds
    → work retries rows ≤ length rounds
    → let rows' = (start retries rounds (record { outbox = rows; in_flight = [] })).outbox in
      (unprocessed rows' ≡ []) × ((j : Uuid) → has_id j rows' ≡ has_id j rows)
unfolding start
start_drains retries [] rows keyed settled reliable enough =
    (work-zero retries rows (omega arith), λ j. refl)
start_drains retries ((now, producer) ∷ rounds) rows keyed settled reliable enough =
    let (rows', run, kept, progress) =
      publish_round_lem retries now producer reliable.0 rows keyed settled in
    let less : work retries rows' ≤ length rounds = elim progress [
      | inl nothing ↦ omega (arith, kept.no_more, zero-work retries rows nothing)
      | inr less ↦ omega arith
    ] in
    let (drained, ids) =
      start_drains retries rounds rows' kept.keyed kept.settled reliable.1 less in
    (
      ap (λ s. unprocessed (start retries rounds s).outbox) run ∙ drained,
      λ j. ap (λ s. has_id j (start retries rounds s).outbox) run ∙ ids j ∙ kept.same_ids j,
    )
