-- ===== src/EventStore/Rows.antt =====
-- What the load of wallet_command_repo.py makes of the rows that `append` has stored.
use microservice_wallet_serv.Base.{
  ℕ, ◌+◌, ◌≤◌, ◌≡◌, refl, ap, List, [], ◌∷◌, ◌++◌, length, arith, ==_refl,
}
use microservice_wallet_serv.Base.Text.{Text, same_text_refl}
use microservice_wallet_serv.Errors.{Uuid, ok}
use microservice_wallet_serv.Event.{WalletEvent}
use microservice_wallet_serv.Event.Serial.{Fresh}
use microservice_wallet_serv.Event.RoundTrip.{event_round_trip}
use microservice_wallet_serv.Aggregate.{WalletAggregate, when}
use microservice_wallet_serv.Aggregate.Replay.{replay}
use microservice_wallet_serv.EventStore.{EventRow, stream, insert_by_version, order_by_version}
use microservice_wallet_serv.EventStore.Append.{Env, Call, stored_row}
use microservice_wallet_serv.EventStore.Stored.{stored_rows}
use microservice_wallet_serv.EventStore.Load.{decode_row, rehydrate, last_version}

pub stream-append :
    (id : Uuid) (t : Text) (xs ys : List EventRow)
    → stream id t (xs ++ ys) ≡ stream id t xs ++ stream id t ys
unfolding stream
stream-append id t [] ys = refl
stream-append id t (x ∷ xs) ys = ground (arith, stream-append id t xs ys)

module _ (env : Env) (call : Call) where
  pub decode_row-stored_row :
      (fresh : Fresh) (v : ℕ) (e : WalletEvent)
      → decode_row env.codec fresh (stored_row env call v e) ≡ ok e
  unfolding decode_row stored_row
  decode_row-stored_row fresh v e = (event_round_trip env.codec fresh e).0

  pub rehydrate-stored_rows :
      (fresh : Fresh) (v : ℕ) (es : List WalletEvent) (a : WalletAggregate)
      → rehydrate env.codec fresh (stored_rows env call v es) a ≡ ok (replay a es)
  unfolding rehydrate stored_rows replay
  rehydrate-stored_rows fresh v [] a = refl
  rehydrate-stored_rows fresh v (e ∷ es) a =
      rw (decode_row-stored_row fresh (v + 1) e) (rehydrate-stored_rows fresh (v + 1) es (when e a))

  pub stream-stored_rows :
      (v : ℕ) (es : List WalletEvent)
      → stream call.aggregate_id call.aggregate_type (stored_rows env call v es)
        ≡ stored_rows env call v es
  unfolding stream stored_rows stored_row
  stream-stored_rows v [] = refl
  stream-stored_rows v (e ∷ es) =
      rw (==_refl call.aggregate_id, same_text_refl call.aggregate_type)
        (ap (λ rows. stored_row env call (v + 1) e ∷ rows) (stream-stored_rows (v + 1) es))

  insert-stored_rows :
      (v w : ℕ) (e : WalletEvent) (es : List WalletEvent)
      → v ≤ w
      → insert_by_version (stored_row env call v e) (stored_rows env call w es)
        ≡ stored_row env call v e ∷ stored_rows env call w es
  unfolding insert_by_version stored_rows stored_row
  insert-stored_rows v w e [] h = refl
  insert-stored_rows v w e (f ∷ es) h = ground arith

  pub order-stored_rows :
      (v : ℕ) (es : List WalletEvent)
      → order_by_version (stored_rows env call v es) ≡ stored_rows env call v es
  unfolding order_by_version stored_rows
  order-stored_rows v [] = refl
  order-stored_rows v (e ∷ es) =
      rw (order-stored_rows (v + 1) es) (insert-stored_rows (v + 1) (v + 1) e es (omega arith))

  pub last_version-stored_rows :
      (v : ℕ) (e : WalletEvent) (es : List WalletEvent)
      → last_version (stored_row env call (v + 1) e) (stored_rows env call (v + 1) es)
        ≡ v + length (e ∷ es)
  unfolding last_version stored_rows stored_row
  last_version-stored_rows v e [] = omega arith
  last_version-stored_rows v e (f ∷ es) = omega (arith, last_version-stored_rows (v + 1) f es)
