-- ===== src/EventStore/Concurrency.antt =====
-- The optimistic lock of `append`: the unique constraint on an aggregate's versions.
use microservice_wallet_serv.Base.{
  ℕ, ◌+◌, ◌≡◌, refl, ◌∙◌, ap, Bool, true, false, ◌&&◌, ◌||◌, List, [], ◌∷◌, ◌++◌, arith, ◌==◌,
  ==_refl,
}
use microservice_wallet_serv.Errors.{Uuid, ok, err, optimistic_concurrency}
use microservice_wallet_serv.Errors.Exec.{rollback, bind_err}
use microservice_wallet_serv.Event.{WalletEvent}
use microservice_wallet_serv.EventStore.{EventRow, conflicts}
use microservice_wallet_serv.EventStore.Append.{
  Env, Call, Database, stored_row, append_event, append_loop, append,
}
use microservice_wallet_serv.EventStore.Stored.{append_event_lem, stored_rows, append_stores}

-- whether the store has an event of the aggregate at the version
unfoldable pub has_version : Uuid → ℕ → List EventRow → Bool
has_version id version [] = false
has_version id version (x ∷ xs) =
    (id == x.aggregate_id && version == x.aggregate_version) || has_version id version xs

has_version-conflicts :
    (r : EventRow) (rows : List EventRow)
    → has_version r.aggregate_id r.aggregate_version rows ≡ true
    → conflicts r rows ≡ true
unfolding has_version conflicts
has_version-conflicts r [] h = h
has_version-conflicts r (x ∷ rows) h = ground (arith, has_version-conflicts r rows)

has_version-append :
    (r : EventRow) (before after : List EventRow)
    → has_version r.aggregate_id r.aggregate_version (before ++ r ∷ after) ≡ true
unfolding has_version
has_version-append r [] after = ground (arith, ==_refl r.aggregate_id, ==_refl r.aggregate_version)
has_version-append r (x ∷ before) after = ground (arith, has_version-append r before after)

module _ (env : Env) (call : Call) where
  -- When the store already has the aggregate's version after the expected one, `append` of one
  -- event or more raises OptimisticConcurrencyError with that version as the actual one, and
  -- changes nothing.
  append_refused :
      (e : WalletEvent) (es : List WalletEvent) (db : Database)
      → has_version call.aggregate_id (call.expected_version + 1) db.events ≡ true
      → append env call (e ∷ es) db ≡ (
        err (
            optimistic_concurrency call.aggregate_id call.expected_version
              (call.expected_version + 1)),
        db,
      )
  unfolding append append_loop stored_row
  append_refused e es db h =
      let clash =
        has_version-conflicts (stored_row env call (call.expected_version + 1) e) db.events h in
      let run : append_event env call (call.expected_version + 1) e db ≡ (
        err (
            optimistic_concurrency call.aggregate_id call.expected_version
              (call.expected_version + 1)),
        db,
      ) =
        rw (append_event_lem env call (call.expected_version + 1) e db) (rw clash refl) in
      ap (rollback db) (
        bind_err (append_event env call (call.expected_version + 1) e)
          (λ _. append_loop env call (call.expected_version + 1) es) db run)

-- Two writers have loaded an aggregate at the same version, and each has at least one event. When
-- the first one's append has gone through, the second one's is refused with
-- OptimisticConcurrencyError and changes nothing, whatever the events are, and whatever ids and
-- times the rows of the two take.
pub second_writer_refused :
    (env later : Env) (first second : Call) (e f : WalletEvent) (es fs : List WalletEvent)
    (db : Database)
    → second.aggregate_id ≡ first.aggregate_id
    → second.expected_version ≡ first.expected_version
    → (append env first (e ∷ es) db).0 ≡ ok tt
    → let db' = (append env first (e ∷ es) db).1 in
      append later second (f ∷ fs) db' ≡ (
        err (
            optimistic_concurrency second.aggregate_id second.expected_version
              (second.expected_version + 1)),
        db',
      )
unfolding stored_rows stored_row
second_writer_refused env later first second e f es fs db same_id same_version h =
    append_refused later second f fs (append env first (e ∷ es) db).1 (
      rw (same_id, same_version)
        (ap (has_version first.aggregate_id (first.expected_version + 1))
            (append_stores env first (e ∷ es) db h).0
          ∙ has_version-append (stored_row env first (first.expected_version + 1) e) db.events
              (stored_rows env first (first.expected_version + 1) es)))
