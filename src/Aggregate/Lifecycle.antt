-- ===== src/Aggregate/Lifecycle.antt =====
-- The life of a wallet: which statuses lead to which, and that a closed wallet stays as it is.
use microservice_wallet_serv.Base.{◌≡◌, refl, ◌∙◌, ap, ◌⊎◌, inl, inr, List, [], ◌∷◌, arith}
use microservice_wallet_serv.Event.Serial.{Fresh}
use microservice_wallet_serv.Aggregate.{
  WalletStatus, active, suspended, closed, WalletAggregate, apply, new_event,
}
use microservice_wallet_serv.Aggregate.Request.{Operation}
use microservice_wallet_serv.Aggregate.Operations.{perform, suspend, activate, close}
use microservice_wallet_serv.Aggregate.Guards.{event_body, perform_outcome}

-- calls one after the other, by a caller that goes on after an exception
unfoldable pub perform_all : List (Fresh × Operation) → WalletAggregate → WalletAggregate
perform_all [] a = a
perform_all ((fresh, op) ∷ calls) a = perform_all calls (perform fresh op a).1

perform-closed :
    (fresh : Fresh) (op : Operation) (a : WalletAggregate)
    → a.status ≡ closed
    → (perform fresh op a).1 ≡ a
unfolding perform
perform-closed fresh (Operation.deposit _ _) a h = ground arith
perform-closed fresh _ a h = ground arith

-- Once a wallet is closed no sequence of calls changes it or records an event.
pub perform_all-closed :
    (calls : List (Fresh × Operation)) (a : WalletAggregate)
    → a.status ≡ closed
    → perform_all calls a ≡ a
unfolding perform_all
perform_all-closed [] a h = refl
perform_all-closed ((fresh, op) ∷ calls) a h =
    ap (perform_all calls) (perform-closed fresh op a h) ∙ perform_all-closed calls a h

-- Only `close` closes a wallet: when it is closed after a call, it was closed before, or the call
-- was `close`.
pub perform_closes :
    (fresh : Fresh) (op : Operation) (a : WalletAggregate)
    → (perform fresh op a).1.status ≡ closed
    → (a.status ≡ closed) ⊎ (op ≡ Operation.close)
unfolding perform apply
perform_closes fresh (Operation.deposit _ _) a h = ground arith
perform_closes fresh _ a h = ground arith

-- the status that a call leaves: `activate` and `suspend` set theirs unless the wallet is closed,
-- `close` always closes, and no other method touches the status
unfoldable pub status_after : Operation → WalletStatus → WalletStatus
status_after Operation.close s = closed
status_after Operation.suspend active = suspended
status_after Operation.activate suspended = active
status_after _ s = s

unfoldable pub status_after_all : List (Fresh × Operation) → WalletStatus → WalletStatus
unfolding status_after
status_after_all [] s = s
status_after_all ((_, op) ∷ calls) s = status_after_all calls (status_after op s)

-- a call that either does nothing or applies an event that leaves the status
untouched :
    (fresh : Fresh) (op : Operation) (a : WalletAggregate)
    → (apply (new_event fresh a (event_body op a)) a).status ≡ a.status
    → (perform fresh op a).1.status ≡ a.status
untouched fresh op a kept = elim (perform_outcome fresh op a) [
  | inl same ↦ ap (λ x. x.status) same
  | inr applied ↦ ap (λ p. p.1.status) applied ∙ kept
]

suspend_status :
    (fresh : Fresh) (a : WalletAggregate)
    → (suspend fresh a).1.status ≡ status_after Operation.suspend a.status
unfolding suspend apply status_after
suspend_status fresh a = ground arith

activate_status :
    (fresh : Fresh) (a : WalletAggregate)
    → (activate fresh a).1.status ≡ status_after Operation.activate a.status
unfolding activate apply status_after
activate_status fresh a = ground arith

close_status : (fresh : Fresh) (a : WalletAggregate) → (close fresh a).1.status ≡ closed
unfolding close apply
close_status fresh a = ground arith

perform-status :
    (fresh : Fresh) (op : Operation) (a : WalletAggregate)
    → (perform fresh op a).1.status ≡ status_after op a.status
unfolding apply status_after new_event
perform-status fresh (Operation.deposit x r) a = untouched fresh (Operation.deposit x r) a refl
perform-status fresh (Operation.withdraw x r) a = untouched fresh (Operation.withdraw x r) a refl
perform-status fresh (Operation.pay_with_wallet x b) a =
    untouched fresh (Operation.pay_with_wallet x b) a refl
perform-status fresh (Operation.refund x b) a = untouched fresh (Operation.refund x b) a refl
perform-status fresh (Operation.adjustment x r i) a =
    untouched fresh (Operation.adjustment x r i) a refl
perform-status fresh Operation.suspend a = (unfold perform in suspend_status fresh a)
perform-status fresh Operation.activate a = (unfold perform in activate_status fresh a)
perform-status fresh Operation.close a = (unfold perform in close_status fresh a)

-- Any sequence of calls, by a caller that goes on after exceptions, takes the status where the
-- machine of the three methods on it takes it: `suspend` moves it from active to suspended,
-- `activate` from suspended to active, `close` from both to closed, and nothing else moves it.
pub perform_all_status :
    (calls : List (Fresh × Operation)) (a : WalletAggregate)
    → (perform_all calls a).status ≡ status_after_all calls a.status
unfolding perform_all status_after_all
perform_all_status [] a = refl
perform_all_status ((fresh, op) ∷ calls) a =
    perform_all_status calls (perform fresh op a).1
    ∙ ap (status_after_all calls) (perform-status fresh op a)
