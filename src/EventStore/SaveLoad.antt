-- ===== src/EventStore/SaveLoad.antt =====
-- Saving a new wallet and loading it again: wallet_command_repo.py over event_store_repo.py, with
-- the aggregate's methods in between.
use microservice_wallet_serv.Base.{
  ℕ, ◌+◌, ◌≡◌, refl, sym, ◌∙◌, ap, inl, inr, true, Option, some, List, [], ◌∷◌, ◌++◌, append_assoc,
  append-nil, length, arith, Bool-cases,
}
use microservice_wallet_serv.Base.Text.{Text, is_truthy, strip, upper}
use microservice_wallet_serv.Errors.{Uuid, ok, err}
use microservice_wallet_serv.Errors.Exec.{pure, bind_ok}
use microservice_wallet_serv.Event.{WalletEvent, created}
use mathlib.Core.Option.{get_or}
use microservice_wallet_serv.Event.Serial.{Fresh}
use microservice_wallet_serv.Aggregate
use microservice_wallet_serv.Aggregate.{
  WalletStatus, WalletAggregate, new_aggregate, new_event, when, handler, apply, pop_events,
}
use microservice_wallet_serv.Aggregate.Request.{Operation}
use microservice_wallet_serv.Aggregate.Operations.{perform}
use microservice_wallet_serv.Aggregate.Guards.{perform_outcome, event_body}
use microservice_wallet_serv.Aggregate.Lifecycle.{perform_all}
use microservice_wallet_serv.Aggregate.Replay.{
  replay, settled, IsLive, handler_keeps, apply-IsLive, perform_all-IsLive,
}
use microservice_wallet_serv.EventStore.{stream, order_by_version}
use microservice_wallet_serv.EventStore.Append.{Env, Call, Database, append}
use microservice_wallet_serv.EventStore.Stored.{stored_rows, append_stores}
use microservice_wallet_serv.EventStore.Load.{initial, load_rows}
use microservice_wallet_serv.EventStore.Rows.{
  stream-append, stream-stored_rows, order-stored_rows, decode_row-stored_row,
  rehydrate-stored_rows, last_version-stored_rows,
}
use microservice_wallet_serv.EventStore.CommandRepo
use microservice_wallet_serv.EventStore.CommandRepo.{
  wallet_type, load, save_call, save_events, save,
}

module _ (env : Env) where
  load_rows-stored_rows :
      (call : Call) (id : Uuid) (v : ℕ) (e : WalletEvent) (es : List WalletEvent)
      (start : WalletAggregate)
      → initial env.codec env.fresh e e.body ≡ ok start
      → load_rows env.codec env.fresh id (stored_rows env call v (e ∷ es))
        ≡ ok (record (replay start (e ∷ es)) { version = v + length (e ∷ es) })
  unfolding load_rows stored_rows replay
  load_rows-stored_rows call id v e es start h =
      rw (decode_row-stored_row env call env.fresh (v + 1) e, h)
        (rw
          (
            rehydrate-stored_rows env call env.fresh (v + 1) es (when e start),
            last_version-stored_rows env call v e es,
          )
          refl)

  -- what a save of events leaves to the loads of the same wallet
  save_events_loads :
      (a : WalletAggregate) (e : WalletEvent) (es : List WalletEvent) (db : Database)
      (start : WalletAggregate) {saved : WalletAggregate}
      → initial env.codec env.fresh e e.body ≡ ok start
      → stream a.wallet_id wallet_type db.events ≡ []
      → (save_events env a (e ∷ es) db).0 ≡ ok saved
      → ((load env a.wallet_id (save_events env a (e ∷ es) db).1).0
          ≡ ok (record (replay start (e ∷ es)) { version = saved.version }))
        × (saved.version ≡ a.version + length (e ∷ es))
  unfolding save_events load
  save_events_loads a e es db start {saved} h empty stored =
      let call = save_call env a e in
      let (_, first, run) =
        bind_ok (append env call (e ∷ es))
          (λ _. pure (record a { version = a.version + length (e ∷ es) })) db stored in
      let counted =
        ap (λ r. elim r [ ok b ↦ b.version | err _ ↦ 0 ]) (sym stored ∙ ap (λ p. p.0) run) in
      let rows : stream a.wallet_id wallet_type (append env call (e ∷ es) db).1.events
          ≡ stored_rows env call a.version (e ∷ es) =
        ap (stream a.wallet_id wallet_type) (append_stores env call (e ∷ es) db first).0
        ∙ stream-append a.wallet_id wallet_type db.events (stored_rows env call a.version (e ∷ es))
        ∙ rw empty (stream-stored_rows env call a.version (e ∷ es)) in
      (
        ap
              (λ p.
                load_rows env.codec env.fresh a.wallet_id
                  (order_by_version (stream a.wallet_id wallet_type p.1.events)))
              run
            ∙ ap (λ xs. load_rows env.codec env.fresh a.wallet_id (order_by_version xs)) rows
            ∙ ap (load_rows env.codec env.fresh a.wallet_id)
                (order-stored_rows env call a.version (e ∷ es))
            ∙ load_rows-stored_rows call a.wallet_id a.version e es start h
            ∙ ap (λ v. ok (record (replay start (e ∷ es)) { version = v })) (sym counted),
        counted,
      )

-- one call adds to the events, or leaves them
perform-extends :
    (fresh : Fresh) (op : Operation) (a : WalletAggregate)
    → (rest : List WalletEvent) × ((perform fresh op a).1.uncommitted_events
        ≡ a.uncommitted_events ++ rest)
unfolding apply when new_event
perform-extends fresh op a = elim (perform_outcome fresh op a) [
  | inl same ↦ ([], ap (λ b. b.uncommitted_events) same ∙ sym (append-nil a.uncommitted_events))
  | inr applied ↦ (
    new_event fresh a (event_body op a) ∷ [],
    rw applied
        (rw (handler_keeps (new_event fresh a (event_body op a)) (event_body op a) a).0 refl),
  )
]

perform_all-extends :
    (calls : List (Fresh × Operation)) (a : WalletAggregate)
    → (rest : List WalletEvent) × ((perform_all calls a).uncommitted_events
        ≡ a.uncommitted_events ++ rest)
unfolding perform_all
perform_all-extends [] a = ([], sym (append-nil _))
perform_all-extends ((fresh, op) ∷ calls) a =
    let (first, h) = perform-extends fresh op a in
    let (later, k) = perform_all-extends calls (perform fresh op a).1 in
    (first ++ later, k ∙ ap (λ xs. xs ++ later) h ∙ append_assoc a.uncommitted_events first later)

-- the aggregate that the constructor makes
abbrev blank : ℕ → Uuid → Uuid → Text → WalletAggregate
blank now wallet user currency = record {
  wallet_id = wallet;
  user_id = user;
  currency = currency;
  status = WalletStatus.active;
  created_at = now;
  updated_at = now;
  version = 0;
  uncommitted_events = [];
}

abbrev creation : Fresh → Uuid → Uuid → Text → WalletEvent
creation fresh wallet user currency =
    new_event fresh (blank fresh.now wallet user currency) (created currency)

create_ok :
    (fresh : Fresh) (generated user : Uuid) (currency : Text) (wallet : Option Uuid)
    {a : WalletAggregate}
    → Aggregate.create fresh generated (some user) currency wallet ≡ ok a
    → (is_truthy (strip (upper currency)) ≡ true)
      × (a
          ≡ apply
              (creation fresh (get_or wallet generated) user (upper currency))
              (blank fresh.now (get_or wallet generated) user (upper currency)))
unfolding Aggregate.create new_aggregate
create_ok fresh generated user currency wallet h =
    elim (Bool-cases (is_truthy (strip (upper currency)))) [
      | inl solid ↦ (solid, ground arith)
      | inr empty ↦ absurd (ground arith)
    ]

module _ (env : Env) where
  -- a save, by the events that the aggregate holds
  save_loads :
      (b : WalletAggregate) (e : WalletEvent) (es : List WalletEvent) (db : Database)
      (start : WalletAggregate) {saved : WalletAggregate}
      → b.uncommitted_events ≡ e ∷ es
      → initial env.codec env.fresh e e.body ≡ ok start
      → stream b.wallet_id wallet_type db.events ≡ []
      → (CommandRepo.create env b db).0 ≡ ok saved
      → ((load env b.wallet_id (CommandRepo.create env b db).1).0
          ≡ ok (record (replay start (e ∷ es)) { version = saved.version }))
        × (saved.version ≡ b.version + length (e ∷ es))
  unfolding CommandRepo.create save pop_events
  save_loads b e es db start held h empty stored =
      let run = ap (λ xs. save_events env (record b { uncommitted_events = [] }) xs db) held in
      let (loaded, counted) =
        save_events_loads env (record b { uncommitted_events = [] }) e es db start h empty
          (ap (λ p. p.0) (sym run) ∙ stored) in
      (ap (λ p. (load env b.wallet_id p.1).0) run ∙ loaded, counted)

  -- A wallet is created, any methods are called on it, whether they raise or not, and it is saved
  -- where the store has no events of its id. If the save goes through, `load` of the id gives the
  -- aggregate as it was saved, with nothing uncommitted, at the version that the save reports. That
  -- version is twice the aggregate's own.
  pub create_save_load :
      (fresh : Fresh) (generated user : Uuid) (currency : Text) (wallet : Option Uuid)
      (calls : List (Fresh × Operation)) (db : Database) {a saved : WalletAggregate}
      → Aggregate.create fresh generated (some user) currency wallet ≡ ok a
      → stream (perform_all calls a).wallet_id wallet_type db.events ≡ []
      → (CommandRepo.create env (perform_all calls a) db).0 ≡ ok saved
      → let b = perform_all calls a in
        ((load env b.wallet_id (CommandRepo.create env b db).1).0 ≡ ok (settled b saved.version))
        × (saved.version ≡ b.version + b.version)
  unfolding initial new_aggregate replay when handler new_event
  create_save_load fresh generated user currency wallet calls db {a} {saved} h empty stored =
      let w = get_or wallet generated in
      let c = upper currency in
      let e = creation fresh w user c in
      let a0 = blank fresh.now w user c in
      let b = perform_all calls a in
      let (solid, made) = create_ok fresh generated user currency wallet h in
      let live : IsLive a0 b =
        perform_all-IsLive calls
          (rw made (apply-IsLive e (record { rebuilt = refl; counted = omega arith }))) in
      let (rest, grown) = perform_all-extends calls a in
      let first : a.uncommitted_events ≡ e ∷ [] = rw made (unfold apply in refl) in
      let held : b.uncommitted_events ≡ e ∷ rest = grown ∙ ap (λ xs. xs ++ rest) first in
      let start = blank env.fresh.now w user c in
      let (loaded, counted) = save_loads b e rest db start held (rw solid refl) empty stored in
      let rebuilt : replay start (e ∷ rest) ≡ settled b 0 =
        ap (replay a0) (sym held) ∙ live.rebuilt in
      (
        loaded ∙ ap {A = WalletAggregate} (λ x. ok (record x { version = saved.version })) rebuilt,
        omega (arith, counted, live.counted, ap length held),
      )
