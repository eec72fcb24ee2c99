-- ===== src/ReadModel/Rebuild.antt =====
-- The rebuild of the read model from the event store: rebuild_wallet_projection.py.
use microservice_wallet_serv.Base.{◌≡◌, refl, ◌⊎◌, inl, inr, List}
use microservice_wallet_serv.Errors.{Uuid, PyError, Result, ok, err, ◌>>=◌}
use microservice_wallet_serv.Errors.Exec
use microservice_wallet_serv.Errors.Exec.{
  Exec, lift_ok, bind_ok, bind_run, atomic_ok, modify, rollback,
}
use microservice_wallet_serv.Event.Json.{Codec}
use microservice_wallet_serv.Event.Serial.{Fresh, event_from_dict}
use microservice_wallet_serv.EventStore.{EventRow}
use mathlib.Core.List.{foldl}
use microservice_wallet_serv.Base.Int.{pos}
use microservice_wallet_serv.Base.Dict.{lookup}
use microservice_wallet_serv.Event.{WalletEvent}
use microservice_wallet_serv.Base.{ℕ, [], ◌∷◌, Option, some, none, sym, ap, ◌∙◌}
use microservice_wallet_serv.ReadModel.Projector.{project}
use microservice_wallet_serv.ReadModel.Ledger.{
  project_all, balance_of, ledger_entry, project_all-ledger, row_balance,
}
use microservice_wallet_serv.ReadModel.{ReadSide}
use microservice_wallet_serv.ReadModel.Runner.{
  get_or_create_state, rebuild, replay_rows, wallet_rows, order_by_created, runner_version,
}

-- one outcome, in transactions on two states
rolled_back :
    (p : Result (Unit {0}) × ReadSide) (s t : ReadSide)
    → (((rollback s p).0 ≡ ok tt) × (rollback s p ≡ rollback t p))
      ⊎ ((x : PyError) × (rollback s p ≡ (err x, s)) × (rollback t p ≡ (err x, t)))
rolled_back (ok _, s') s t = inl (refl, refl)
rolled_back (err x, s') s t = inr (x, refl, refl)

-- The rebuild does not depend on what the read side held before. From any two states either both
-- runs go through and leave the same tables, or both raise the same exception and change nothing.
pub rebuild_forgets :
    (C : Codec) (fresh : Fresh) (rows : List EventRow) (s t : ReadSide)
    → (((rebuild C fresh rows s).0 ≡ ok tt) × (rebuild C fresh rows s ≡ rebuild C fresh rows t))
      ⊎ ((x : PyError) × (rebuild C fresh rows s ≡ (err x, s))
          × (rebuild C fresh rows t ≡ (err x, t)))
unfolding rebuild get_or_create_state
rebuild_forgets C fresh rows s t = rolled_back _ s t

-- the events of rows, with the time of the run
unfoldable pub events_of : Codec → Fresh → List EventRow → Result (List (ℕ × WalletEvent))
events_of C fresh [] = ok []
events_of C fresh (r ∷ rows) = do
  e ← event_from_dict C fresh r.event_type r.event_payload
  es ← events_of C fresh rows
  ok ((fresh.now, e) ∷ es)

events_of_cons :
    (C : Codec) (fresh : Fresh) (r : EventRow) (rows : List EventRow) {e : WalletEvent}
    {es : List (ℕ × WalletEvent)}
    → event_from_dict C fresh r.event_type r.event_payload ≡ ok e
    → events_of C fresh rows ≡ ok es
    → events_of C fresh (r ∷ rows) ≡ ok ((fresh.now, e) ∷ es)
unfolding events_of
events_of_cons C fresh r rows decoded found = rw (decoded, found) refl

project_all_cons :
    (now : ℕ) (e : WalletEvent) (es : List (ℕ × WalletEvent)) (s : ReadSide) {u : Unit {0}}
    → (project now e s).0 ≡ ok u
    → project_all ((now, e) ∷ es) s ≡ project_all es (project now e s).1
unfolding project_all
project_all_cons now e es s first =
    bind_run (project now e) (λ _. project_all es) s (ap (λ r. (r, (project now e s).1)) first)

-- a replay that goes through has projected the rows' events
replay_rows_ok :
    (C : Codec) (fresh : Fresh) (rows : List EventRow) (last : Option Uuid) (s : ReadSide)
    {l : Option Uuid}
    → (replay_rows C fresh rows last s).0 ≡ ok l
    → (es : List (ℕ × WalletEvent)) × (events_of C fresh rows ≡ ok es)
      × ((project_all es s).0 ≡ ok tt)
      × ((replay_rows C fresh rows last s).1 ≡ (project_all es s).1)
unfolding replay_rows events_of project_all
replay_rows_ok C fresh [] last s h = ([], refl, refl, refl)
replay_rows_ok C fresh (r ∷ rows) last s h =
    let decode = event_from_dict C fresh r.event_type r.event_payload in
    let (e, decoded, run) =
      lift_ok decode (λ x. Exec.◌>>◌ (project fresh.now x) (replay_rows C fresh rows (some r.id))) s
        h in
    let (_, first, run') =
      bind_ok (project fresh.now e) (λ _. replay_rows C fresh rows (some r.id)) s
        (ap (λ p. p.0) (sym run) ∙ h) in
    let (es, found, projected, same) =
      replay_rows_ok C fresh rows (some r.id) (project fresh.now e s).1
        (ap (λ p. p.0) (sym run') ∙ ap (λ p. p.0) (sym run) ∙ h) in
    let step = project_all_cons fresh.now e es s first in
    (
      (fresh.now, e) ∷ es,
      events_of_cons C fresh r rows decoded found,
      ap (λ p. p.0) step ∙ projected,
      ap (λ p. p.1) run ∙ ap (λ p. p.1) run' ∙ same ∙ ap (λ p. p.1) (sym step),
    )

-- the state in which the replay begins
abbrev cleared : ReadSide
cleared = record { wallets = []; projection = some (record { version = 0; last_event_id = none }) }

abbrev finish : Option Uuid → Exec ReadSide (Unit {0})
finish last = modify (λ s. record s {
  projection = some (record { version = runner_version; last_event_id = last });
})

rebuild_ok :
    (C : Codec) (fresh : Fresh) (rows : List EventRow) (s : ReadSide)
    → (rebuild C fresh rows s).0 ≡ ok tt
    → let ordered = order_by_created (wallet_rows rows) in
      (es : List (ℕ × WalletEvent)) × (events_of C fresh ordered ≡ ok es)
      × ((project_all es cleared).0 ≡ ok tt)
      × ((rebuild C fresh rows s).1.wallets ≡ (project_all es cleared).1.wallets)
unfolding rebuild get_or_create_state
rebuild_ok C fresh rows s h =
    let ordered = order_by_created (wallet_rows rows) in
    let whole = Exec.◌>>=◌ (replay_rows C fresh ordered none) finish in
    let inner = atomic_ok (λ _. whole cleared) s h in
    let (_, replayed, run) =
      bind_ok (replay_rows C fresh ordered none) finish cleared (ap (λ p. p.0) inner ∙ h) in
    let (es, found, projected, same) = replay_rows_ok C fresh ordered none cleared replayed in
    (
      es,
      found,
      projected,
      ap (λ p. p.1.wallets) (sym inner) ∙ ap (λ p. p.1.wallets) run ∙ ap (λ t. t.wallets) same,
    )

-- When a rebuild goes through, the wallet rows of the event store, in the order of their creation,
-- decode to events, and the balance of every wallet is the ledger of these events from 0 on.
pub rebuild_ledger :
    (C : Codec) (fresh : Fresh) (rows : List EventRow) (s : ReadSide) (id : Uuid)
    → (rebuild C fresh rows s).0 ≡ ok tt
    → (es : List (ℕ × WalletEvent)) × (events_of C fresh (order_by_created (wallet_rows rows))
        ≡ ok es)
      × (balance_of (rebuild C fresh rows s).1 id ≡ foldl (ledger_entry id) (pos 0) es)
unfolding balance_of
rebuild_ledger C fresh rows s id h =
    let (es, found, projected, same) = rebuild_ok C fresh rows s h in
    (es, found, ap (λ w. row_balance (lookup id w)) same ∙ ledger es projected)
  where
    ledger :
        (es : List (ℕ × WalletEvent))
        → (project_all es cleared).0 ≡ ok tt
        → balance_of (project_all es cleared).1 id ≡ foldl (ledger_entry id) (pos 0) es
    ledger es projected =
        project_all-ledger es cleared id projected
        ∙ ap (λ b. foldl (ledger_entry id) b es) (unfold lookup in refl)
