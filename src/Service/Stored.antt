-- ===== src/Service/Stored.antt =====
-- What a command of wallet_command_services.py that goes through leaves in the event store.
use microservice_wallet_serv.Base.{
  ◌+◌, ◌≡◌, refl, sym, ◌∙◌, ap, ◌⊎◌, inl, inr, none, some, List, [], ◌∷◌, ◌++◌, arith,
  if◌then◌else◌,
}
use microservice_wallet_serv.Errors.{
  Uuid, PyError, Result, ok, err, Result-cases, runtime_error, is_wallet_not_found,
  wallet_not_found,
}
use microservice_wallet_serv.Errors.Exec.{
  pure, raise, catch_run, bind_ok, bind_run, bind_err, catch_ok, ◌>>=◌,
}
use microservice_wallet_serv.Event.{WalletEvent, Body, created}
use microservice_wallet_serv.Event.Json.{Codec}
use microservice_wallet_serv.Event.Serial.{Fresh}
use microservice_wallet_serv.Aggregate.{
  WalletAggregate, when, apply, new_aggregate, new_event, pop_events,
}
use microservice_wallet_serv.Aggregate.Request.{Operation}
use microservice_wallet_serv.Aggregate.Operations.{Method, perform}
use microservice_wallet_serv.Aggregate.Guards.{event_body, IsIdle, perform_effect}
use microservice_wallet_serv.Aggregate.Replay.{handler_keeps}
use microservice_wallet_serv.EventStore.{EventRow}
use microservice_wallet_serv.EventStore.Append.{Env, Database, append, stored_row}
use microservice_wallet_serv.EventStore.Stored.{stored_rows, append_stores}
use microservice_wallet_serv.EventStore.Load.{decode_row, rehydrate, initial, load_rows}
use microservice_wallet_serv.EventStore.CommandRepo.{load, save, save_events, save_call}
use microservice_wallet_serv.Service.{update, translate, load_wallet, call_method, save_aggregate}
use microservice_wallet_serv.Service.Outcomes.{event_repo}

-- an outcome, by its parts
outcome_of :
    {W : Type 0} (p : Result (Unit {0}) × W) {u : Unit {0}} {b : W}
    → p.0 ≡ ok u
    → p.1 ≡ b
    → p ≡ (ok tt, b)
outcome_of (r, w) returned same = rw (returned, same) refl

module _ (C : Codec) (fresh : Fresh) where
  rehydrate_clean :
      (rows : List EventRow) (a : WalletAggregate) {b : WalletAggregate}
      → a.uncommitted_events ≡ []
      → rehydrate C fresh rows a ≡ ok b
      → b.uncommitted_events ≡ []
  unfolding rehydrate when
  rehydrate_clean [] a {b} clean h = ground arith
  rehydrate_clean (r ∷ rows) a {b} clean h = elim (Result-cases (decode_row C fresh r)) [
    | inl (e, decoded) ↦
        rehydrate_clean rows (when e a) {b = b} ((handler_keeps e e.body a).0 ∙ clean)
          (rw decoded at h)
    | inr (x, failed) ↦ absurd (ground arith)
  ]

  initial_clean :
      (e : WalletEvent) (b : Body) {a : WalletAggregate}
      → initial C fresh e b ≡ ok a
      → a.uncommitted_events ≡ []
  unfolding initial new_aggregate
  initial_clean e (created c) h = ground arith
  initial_clean e _ h = absurd (ground arith)

  load_rows_clean :
      (id : Uuid) (rows : List EventRow) {a : WalletAggregate}
      → load_rows C fresh id rows ≡ ok a
      → a.uncommitted_events ≡ []
  unfolding load_rows
  load_rows_clean id [] h = absurd (ground arith)
  load_rows_clean id (r ∷ rows) h = elim (Result-cases (decode_row C fresh r)) [
    | inr (x, failed) ↦ absurd (ground arith)
    | inl (e, decoded) ↦ elim (Result-cases (initial C fresh e e.body)) [
      | inr (x, failed) ↦ absurd (ground arith)
      | inl (start, began) ↦ elim (Result-cases (rehydrate C fresh (r ∷ rows) start)) [
        | inr (x, failed) ↦ absurd (ground arith)
        | inl (b, replayed) ↦
            let clean = rehydrate_clean (r ∷ rows) start (initial_clean e e.body began) replayed in
            ground arith
      ]
    ]
  ]

module _ (env : Env) where
  saved_one :
      (b : WalletAggregate) (e : WalletEvent) (db : Database)
      → b.uncommitted_events ≡ e ∷ []
      → (save_aggregate (event_repo env) b db).0 ≡ ok tt
      → (save_aggregate (event_repo env) b db).1.events
        ≡ db.events ++ stored_row env (save_call env b e) (b.version + 1) e ∷ []
  unfolding save_aggregate save pop_events save_events stored_rows
  saved_one b e db held went =
      let start = record b { uncommitted_events = [] } in
      let tried =
        catch_ok (save env b >>= λ _. pure tt) (λ _. runtime_error "Failed to persist wallet") db
          went in
      let (_, kept, run) =
        bind_ok (save env b) (λ _. pure tt) db (sym (ap (λ p. p.0) tried) ∙ went) in
      let held_run : save env b db ≡ save_events env start (e ∷ []) db =
        ap (λ xs. save_events env start xs db) held in
      let (_, appended, done) =
        bind_ok (append env (save_call env b e) (e ∷ []))
          (λ _. pure (record start { version = b.version + 1 })) db
          (sym (ap (λ p. p.0) held_run) ∙ kept) in
      ap (λ p. p.1.events) (tried ∙ run)
      ∙ ap (λ p. p.1.events) (held_run ∙ done)
      ∙ (append_stores env (save_call env b e) (e ∷ []) db appended).0

  saved_none :
      (b : WalletAggregate) (db : Database)
      → b.uncommitted_events ≡ []
      → save_aggregate (event_repo env) b db ≡ (ok tt, db)
  unfolding save_aggregate save pop_events save_events
  saved_none b db held =
      let start = record b { uncommitted_events = [] } in
      let run : save env b db ≡ (ok start, db) = ap (λ xs. save_events env start xs db) held in
      catch_run (save env b >>= λ _. pure tt)
        (λ _. raise (runtime_error "Failed to persist wallet")) db
        (bind_run (save env b) (λ _. pure tt) db run)

  load_wallet_run :
      (id : Uuid) (db : Database) (a : WalletAggregate)
      → (load env id db).0 ≡ ok a
      → load_wallet (event_repo env) id db ≡ (ok a, db)
  unfolding load_wallet load
  load_wallet_run id db a loaded =
      catch_run (load env id)
        (λ e. if is_wallet_not_found e then raise e else raise (wallet_not_found (some id) none)) db
        (ap (λ r. (r, db)) loaded)

  -- the service's call of a method, by the outcome of the method
  call_method_run :
      (method : Method) (a : WalletAggregate) (db : Database)
      {p : Result (Unit {0}) × WalletAggregate}
      → method a ≡ p
      → call_method method a db ≡ elim p.0 [ ok _ ↦ (ok p.1, db) | err e ↦ (err (translate e), db) ]
  unfolding call_method
  call_method_run method a db called = ap continue called
    where
      continue : Result (Unit {0}) × WalletAggregate → Result WalletAggregate × Database
      continue (r, b) = elim r [ ok _ ↦ (ok b, db) | err e ↦ (err (translate e), db) ]

  -- what the load and the method leave to the save
  update_run :
      (id : Uuid) (method : Method) (db : Database) (a b : WalletAggregate)
      → (load env id db).0 ≡ ok a
      → method a ≡ (ok tt, b)
      → update (event_repo env) id method db ≡ save_aggregate (event_repo env) b db
  unfolding update
  update_run id method db a b loaded called =
      bind_run (load_wallet (event_repo env) id)
        (λ x. call_method method x >>= save_aggregate (event_repo env)) db
        (load_wallet_run id db a loaded)
      ∙ bind_run (call_method method a) (save_aggregate (event_repo env)) db
          (call_method_run method a db called)

  -- a method that raises ends the update
  update_raises :
      (id : Uuid) (method : Method) (db : Database) (a : WalletAggregate) {x : PyError}
      → (load env id db).0 ≡ ok a
      → (method a).0 ≡ err x
      → update (event_repo env) id method db ≡ (err (translate x), db)
  unfolding update
  update_raises id method db a {x} loaded raised =
      bind_run (load_wallet (event_repo env) id)
        (λ y. call_method method y >>= save_aggregate (event_repo env)) db
        (load_wallet_run id db a loaded)
      ∙ bind_err (call_method method a) (save_aggregate (event_repo env)) db
          (call_method_run method a db (ap (λ r. (r, (method a).1)) raised))

  -- what an event adds to an aggregate that was just loaded
  applied_to_loaded :
      (e : WalletEvent) (a : WalletAggregate)
      → a.uncommitted_events ≡ []
      → ((apply e a).uncommitted_events ≡ e ∷ []) × ((apply e a).version + 1 ≡ a.version + 2)
  unfolding apply when
  applied_to_loaded e a clean = (
    ap (λ xs. xs ++ e ∷ []) ((handler_keeps e e.body a).0 ∙ clean),
    omega (arith, (handler_keeps e e.body a).1),
  )

  loaded_clean :
      (id : Uuid) (db : Database) {a : WalletAggregate}
      → (load env id db).0 ≡ ok a
      → a.uncommitted_events ≡ []
  unfolding load
  loaded_clean id db h = load_rows_clean env.codec env.fresh id _ h

  -- Let the load of a wallet give an aggregate, and let the service's update of it by a method go
  -- through. Then the event store has exactly one row more, of the event that the method records on
  -- that aggregate, at the aggregate's version plus 2; but for the suspension of a suspended
  -- wallet, the activation of an active one and the closing of a closed one, which leave the
  -- database as it was.
  pub update_stores :
      (id : Uuid) (fresh : Fresh) (op : Operation) (db : Database) (a : WalletAggregate)
      → (load env id db).0 ≡ ok a
      → (update (event_repo env) id (perform fresh op) db).0 ≡ ok tt
      → let db' = (update (event_repo env) id (perform fresh op) db).1 in
        let e = new_event fresh a (event_body op a) in
        (IsIdle op a.status × (db' ≡ db))
        ⊎ (db'.events
            ≡ db.events ++ stored_row env (save_call env (apply e a) e) (a.version + 2) e ∷ [])
  update_stores id fresh op db a loaded went =
      let clean = loaded_clean id db loaded in
      elim (Result-cases (perform fresh op a).0) [
        | inr (x, raised) ↦
            let run = update_raises id (perform fresh op) db a loaded raised in
            absurd (ground arith)
        | inl (_, returned) ↦ elim (perform_effect fresh op a returned) [
          | inl (idle, same) ↦ inl (
            idle,
            ap (λ p. p.1)
                (update_run id (perform fresh op) db a a loaded
                    (outcome_of (perform fresh op a) returned same)
                  ∙ saved_none a db clean),
          )
          | inr applied ↦
              let e = new_event fresh a (event_body op a) in
              let run = update_run id (perform fresh op) db a (apply e a) loaded applied in
              let (held, version) = applied_to_loaded e a clean in
              inr (
                ap (λ p. p.1.events) run
                ∙ saved_one (apply e a) e db held (sym (ap (λ p. p.0) run) ∙ went)
                ∙ ap (λ v. db.events ++ stored_row env (save_call env (apply e a) e) v e ∷ [])
                    version)
        ]
      ]
