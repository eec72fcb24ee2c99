-- ===== src/EventStore/Stored.antt =====
-- What `append` of event_store_repo.py leaves in the event store and in the outbox.
use mathlib.Core.List.{map, map-append}
use microservice_wallet_serv.Base.{
  ℕ, ◌+◌, ◌≡◌, refl, sym, ◌∙◌, ap, ◌⊎◌, inl, inr, List, [], ◌∷◌, ◌++◌, append_assoc, append-nil,
  arith, Bool-cases, if◌then◌else◌,
}
use microservice_wallet_serv.Errors.{
  PyError, ok, err, outbox_save, optimistic_concurrency, is_integrity_error, Result-cases,
}
use microservice_wallet_serv.Errors.Exec.{atomic_failed, atomic_ok, bind_ok}
use microservice_wallet_serv.Event.{WalletEvent}
use microservice_wallet_serv.Outbox.{OutboxEvent, has_id}
use microservice_wallet_serv.Outbox.Delivery.{queued, save_lem}
use microservice_wallet_serv.EventStore.{EventRow, conflicts, create_row}
use microservice_wallet_serv.EventStore.Append.{
  Env, Call, Database, stored_row, outbox_event, store_event, project_in_debug, append_event,
  append_loop, append,
}

module _ (env : Env) (call : Call) where
  -- the rows of a list of events, at the versions from `current + 1` on
  unfoldable pub stored_rows : ℕ → List WalletEvent → List EventRow
  stored_rows current [] = []
  stored_rows current (e ∷ es) = stored_row env call (current + 1) e ∷ stored_rows (current + 1) es

  -- the messages of a list of events, likewise
  unfoldable pub messages : ℕ → List WalletEvent → List OutboxEvent
  messages current [] = []
  messages current (e ∷ es) = outbox_event env call (current + 1) e ∷ messages (current + 1) es

  store_event_lem :
      (version : ℕ) (e : WalletEvent) (db : Database)
      → store_event env call version e db ≡ (
          if conflicts (stored_row env call version e) db.events
          then (err (optimistic_concurrency call.aggregate_id call.expected_version version), db)
          else (ok tt, record db { events = db.events ++ stored_row env call version e ∷ [] }))
  unfolding store_event create_row is_integrity_error
  store_event_lem version e db = ground arith

  project_in_debug_keeps :
      (e : WalletEvent) (db : Database)
      → let db' = (project_in_debug env call e db).1 in
        (db'.events ≡ db.events) × (db'.outbox ≡ db.outbox)
  unfolding project_in_debug
  project_in_debug_keeps e db = elim (Bool-cases env.debug) [
    | inl on ↦ rw on (refl, refl)
    | inr off ↦ rw off (refl, refl)
  ]

  -- the database after the first two steps of a round
  abbrev written : ℕ → WalletEvent → Database → Database
  written version e db = record db {
    events = db.events ++ stored_row env call version e ∷ [];
    outbox = db.outbox ++ queued (outbox_event env call version e) db.outbox ∷ [];
  }

  pub append_event_lem :
      (version : ℕ) (e : WalletEvent) (db : Database)
      → append_event env call version e db ≡ (
          if conflicts (stored_row env call version e) db.events
          then (err (optimistic_concurrency call.aggregate_id call.expected_version version), db)
          else (if has_id (outbox_event env call version e).id db.outbox
              then (
                err (outbox_save (outbox_event env call version e).aggregate_id),
                record db { events = db.events ++ stored_row env call version e ∷ [] },
              )
              else project_in_debug env call e (written version e db)))
  unfolding append_event
  append_event_lem version e db =
      ground (
        arith,
        store_event_lem version e db,
        save_lem 2 (outbox_event env call version e) db.outbox,
      )

  append_event_ok :
      (version : ℕ) (e : WalletEvent) (db : Database)
      → (append_event env call version e db).0 ≡ ok tt
      → let db' = (append_event env call version e db).1 in
        (db'.events ≡ db.events ++ stored_row env call version e ∷ [])
        × (map (λ r. r.event) db'.outbox
            ≡ map (λ r. r.event) db.outbox ++ outbox_event env call version e ∷ [])
  append_event_ok version e db h =
      elim (Bool-cases (conflicts (stored_row env call version e) db.events)) [
        | inl clash ↦ ground (arith, append_event_lem version e db)
        | inr free ↦ elim (Bool-cases (has_id (outbox_event env call version e).id db.outbox)) [
          | inl taken ↦ ground (arith, append_event_lem version e db)
          | inr fresh ↦ rw (append_event_lem version e db) (
              rw (free, fresh)
                (
                  (project_in_debug_keeps e (written version e db)).0,
                  ap (map (λ r. r.event)) (project_in_debug_keeps e (written version e db)).1
                      ∙ (map-append (λ r. r.event) db.outbox _),
                ))
        ]
      ]

  append_loop_ok :
      (current : ℕ) (es : List WalletEvent) (db : Database)
      → (append_loop env call current es db).0 ≡ ok tt
      → let db' = (append_loop env call current es db).1 in
        (db'.events ≡ db.events ++ stored_rows current es)
        × (map (λ r. r.event) db'.outbox ≡ map (λ r. r.event) db.outbox ++ messages current es)
  unfolding append_loop stored_rows messages
  append_loop_ok current [] db h = (sym (append-nil db.events), sym (append-nil _))
  append_loop_ok current (e ∷ es) db h =
      let (_, first, run) =
        bind_ok (append_event env call (current + 1) e) (λ _. append_loop env call (current + 1) es)
          db h in
      let (rows, sent) = append_event_ok (current + 1) e db first in
      let (rows', sent') =
        append_loop_ok (current + 1) es (append_event env call (current + 1) e db).1
          (sym (ap (λ p. p.0) run) ∙ h) in
      (
        ap (λ p. p.1.events) run
            ∙ rows'
            ∙ ap (λ xs. xs ++ stored_rows (current + 1) es) rows
            ∙ append_assoc db.events _ _,
        ap (λ p. map (λ r. r.event) p.1.outbox) run
            ∙ sent'
            ∙ ap (λ xs. xs ++ messages (current + 1) es) sent
            ∙ append_assoc (map (λ r. r.event) db.outbox) _ _,
      )

  -- what an `append` that goes through leaves
  pub append_stores :
      (es : List WalletEvent) (db : Database)
      → (append env call es db).0 ≡ ok tt
      → let db' = (append env call es db).1 in
        (db'.events ≡ db.events ++ stored_rows call.expected_version es)
        × (map (λ r. r.event) db'.outbox
            ≡ map (λ r. r.event) db.outbox ++ messages call.expected_version es)
  unfolding append stored_rows messages
  append_stores [] db h = (sym (append-nil db.events), sym (append-nil _))
  append_stores (e ∷ es) db h =
      let run = atomic_ok (append_loop env call call.expected_version (e ∷ es)) db h in
      let (rows, sent) = append_loop_ok call.expected_version (e ∷ es) db (ap (λ p. p.0) run ∙ h) in
      (
        ap (λ p. p.1.events) (sym run) ∙ rows,
        ap (λ p. map (λ r. r.event) p.1.outbox) (sym run) ∙ sent,
      )

  pub append_undone :
      (e : WalletEvent) (es : List WalletEvent) (db : Database) {x : PyError}
      → (append env call (e ∷ es) db).0 ≡ err x
      → (append env call (e ∷ es) db).1 ≡ db
  unfolding append
  append_undone e es db h = atomic_failed (append_loop env call call.expected_version (e ∷ es)) db h

  -- `append` is all or nothing, in debug mode too. Either it goes through: then the event store
  -- has grown by exactly one row per event, in order, at the versions after the expected one, and
  -- the outbox by the messages of the same events in the same order. Or it raises: then the event
  -- store, the outbox and the read side are as they were.
  pub append_all_or_nothing :
      (es : List WalletEvent) (db : Database)
      → let (r, db') = append env call es db in
        ((r ≡ ok tt)
          × (db'.events ≡ db.events ++ stored_rows call.expected_version es)
          × (map (λ r. r.event) db'.outbox
              ≡ map (λ r. r.event) db.outbox ++ messages call.expected_version es))
        ⊎ ((x : PyError) × (r ≡ err x) × (db' ≡ db))
  append_all_or_nothing [] db =
      let (rows, sent) = append_stores [] db (unfold append in refl) in
      inl ((unfold append in refl), rows, sent)
  append_all_or_nothing (e ∷ es) db = elim (Result-cases (append env call (e ∷ es) db).0) [
    | inl (_, went) ↦ let (rows, sent) = append_stores (e ∷ es) db went in inl (went, rows, sent)
    | inr (x, raised) ↦ inr (x, raised, append_undone e es db raised)
  ]
