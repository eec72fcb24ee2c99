-- ===== src/Service/Outcomes.antt =====
-- The command service over the event-sourced repository: wallet_command_services.py with
-- wallet_command_repo.py and event_store_repo.py behind it.
use microservice_wallet_serv.Base.{
  ◌+◌, String, refl, inl, inr, Bool, true, false, not, ◌||◌, Option, none, some, List, [], ◌∷◌,
  length, arith, if◌then◌else◌,
}
use microservice_wallet_serv.Base.Text.{Text, is_truthy, strip}
use microservice_wallet_serv.Errors.{
  Uuid, PyError, Result, Result-cases, is_wallet_not_found, wallet_not_found, runtime_error,
  value_error, wallet_domain, is_value_error,
}
use microservice_wallet_serv.Errors.Exec.{Exec, pure, raise, raise_if, lift, catch, ◌>>=◌, ◌>>◌}
use microservice_wallet_serv.Decimal.{Decimal, le_zero, is_zero}
use microservice_wallet_serv.Event.{WalletEvent}
use microservice_wallet_serv.Event.Serial.{Fresh}
use microservice_wallet_serv.Aggregate
use microservice_wallet_serv.Aggregate.{WalletAggregate, pop_events}
use microservice_wallet_serv.Aggregate.Operations.{Method}
use microservice_wallet_serv.EventStore.Append.{Env, Database, append}
use microservice_wallet_serv.EventStore.Stored.{append_undone}
use microservice_wallet_serv.EventStore.CommandRepo
use microservice_wallet_serv.EventStore.CommandRepo.{load, save, save_events, save_call}
use microservice_wallet_serv.Service
use microservice_wallet_serv.Service.{
  CommandRepository, is_missing, call_method, load_wallet, save_aggregate, update, with_wallet_id,
  with_booking_id, check_positive,
}
use microservice_wallet_serv.Service.Atomic.{
  IsAtomic, IsReader, IsAtomic-bind, IsAtomic-catch, IsAtomic-map, IsReader-bind, IsReader-catch,
}

raise_if-IsReader : (b : Bool) (x : PyError) → IsReader (raise_if {S = Database} b x)
unfolding IsReader
raise_if-IsReader true x s = refl
raise_if-IsReader false x s = refl

lift-IsReader : {A : Type 0} (r : Result A) → IsReader (lift {S = Database} r)
unfolding IsReader
lift-IsReader r s = refl

-- one of two exceptions
raise-IsReader :
    (A : Type 0) (b : Bool) (x y : PyError)
    → IsReader {S = Database} {A = A} (if b then raise x else raise y)
unfolding IsReader
raise-IsReader A true x y s = refl
raise-IsReader A false x y s = refl

call_method-IsReader :
    (method : Method) (a : WalletAggregate) → IsReader (call_method {S = Database} method a)
unfolding IsReader call_method
call_method-IsReader method a s = elim (Result-cases (method a).0) [
  | inl (_, went) ↦ rw (call_method, went) refl
  | inr (_, raised) ↦ rw (call_method, raised) refl
]

-- `WalletEventSourcedRepository`, as the service sees it
abbrev pub event_repo : Env → CommandRepository Database
event_repo env = record {
  load = load env;
  save = λ a. save env a >>= λ _. pure tt;
  create = λ a. CommandRepo.create env a >>= λ _. pure tt;
}

module _ (env : Env) where
  save_events-IsAtomic :
      (a : WalletAggregate) (es : List WalletEvent) → IsAtomic (save_events env a es)
  unfolding save_events IsAtomic
  save_events-IsAtomic a [] s e raised = cc
  save_events-IsAtomic a (x ∷ es) s e raised =
      IsAtomic-map (append env (save_call env a x) (x ∷ es))
        (λ _. record a { version = a.version + length (x ∷ es) })
        (λ t y h. append_undone env (save_call env a x) x es t h) s e raised

  save-IsAtomic : (a : WalletAggregate) → IsAtomic (save env a)
  unfolding save pop_events
  save-IsAtomic a = save_events-IsAtomic (record a { uncommitted_events = [] }) a.uncommitted_events

  load_wallet-IsReader : (id : Uuid) → IsReader (load_wallet (event_repo env) id)
  unfolding IsReader load_wallet load
  load_wallet-IsReader id =
      IsReader-catch (load env id)
        (λ e. if is_wallet_not_found e then raise e else raise (wallet_not_found (some id) none))
        (λ s. refl) (λ e s. ground arith)

  save_aggregate-IsAtomic : (a : WalletAggregate) → IsAtomic (save_aggregate (event_repo env) a)
  unfolding save_aggregate
  save_aggregate-IsAtomic a =
      IsAtomic-catch _ (λ _. runtime_error "Failed to persist wallet")
        (IsAtomic-map (save env a) (λ _. tt) (save-IsAtomic a))

  update-IsAtomic : (id : Uuid) (method : Method) → IsAtomic (update (event_repo env) id method)
  unfolding update
  update-IsAtomic id method =
      IsAtomic-bind (load_wallet (event_repo env) id) _ (load_wallet-IsReader id) λ a.
        IsAtomic-bind (call_method method a) _ (call_method-IsReader method a)
          λ b. save_aggregate-IsAtomic b

  check_positive-IsReader :
      (amount : Decimal) (message : String)
      → IsReader (check_positive (event_repo env) amount message)
  unfolding check_positive
  check_positive-IsReader amount message =
      IsReader-bind (lift (le_zero amount)) _ (lift-IsReader _) λ low. raise_if-IsReader low _

  with_wallet_id-IsAtomic :
      (wallet : Option Uuid) (rest : Uuid → Exec Database (Unit {0}))
      → ((id : Uuid) → IsAtomic (rest id))
      → IsAtomic (with_wallet_id (event_repo env) wallet rest)
  unfolding with_wallet_id IsAtomic
  with_wallet_id-IsAtomic none rest safe = λ s e raised. refl
  with_wallet_id-IsAtomic (some id) rest safe = safe id

  with_booking_id-IsAtomic :
      (booking : Option Uuid) (rest : Uuid → Exec Database (Unit {0}))
      → ((id : Uuid) → IsAtomic (rest id))
      → IsAtomic (with_booking_id (event_repo env) booking rest)
  unfolding with_booking_id IsAtomic
  with_booking_id-IsAtomic none rest safe = λ s e raised. refl
  with_booking_id-IsAtomic (some id) rest safe = safe id

  -- a command with an amount, once its ids are there
  paid-IsAtomic :
      (amount : Decimal) (message : String) (id : Uuid) (method : Method)
      → IsAtomic
          (check_positive (event_repo env) amount message >> update (event_repo env) id method)
  paid-IsAtomic amount message id method =
      IsAtomic-bind (check_positive (event_repo env) amount message) _
        (check_positive-IsReader amount message) λ _. update-IsAtomic id method

  create-IsAtomic : (a : WalletAggregate) → IsAtomic (CommandRepo.create env a)
  unfolding CommandRepo.create
  create-IsAtomic a = save-IsAtomic a

  create_wallet-IsAtomic :
      (fresh : Fresh) (generated : Uuid) (wallet user : Option Uuid) (currency : Text)
      → IsAtomic (Service.create_wallet (event_repo env) fresh generated wallet user currency)
  unfolding Service.create_wallet
  create_wallet-IsAtomic fresh generated wallet user currency =
      IsAtomic-bind (raise_if (is_missing user) (value_error "user_id is required")) _
        (raise_if-IsReader _ _)
        λ _.
          IsAtomic-bind
            (raise_if (not (is_truthy currency) || not (is_truthy (strip currency)))
              (value_error "Currency is required"))
            _ (raise_if-IsReader _ _)
            λ _.
              IsAtomic-bind
                (catch (lift (Aggregate.create fresh generated user currency wallet)) (λ e.
                  if is_value_error e
                  then raise (wallet_domain "Invalid wallet creation parameters")
                  else raise e))
                _
                (IsReader-catch (lift (Aggregate.create fresh generated user currency wallet)) _
                  (lift-IsReader _) (λ e. raise-IsReader _ (is_value_error e) _ _))
                λ a.
                  IsAtomic-map
                    (catch ((event_repo env).create a)
                      (λ _. raise (runtime_error "Failed to save wallet")))
                    (λ _. a.wallet_id)
                    (IsAtomic-catch _ (λ _. runtime_error "Failed to save wallet")
                      (IsAtomic-map (CommandRepo.create env a) (λ _. tt) (create-IsAtomic a)))

  -- A command of the service that raises leaves the database as it was, in the event store, the
  -- outbox and the read side, for all nine commands, over the event-sourced repository.
  pub commands-IsAtomic :
      (fresh : Fresh) (generated : Uuid) (wallet user other : Option Uuid) (currency reason : Text)
      (amount : Decimal)
      → let repo = event_repo env in
        IsAtomic (Service.create_wallet repo fresh generated wallet user currency)
        × IsAtomic (Service.deposit repo fresh wallet amount other)
        × IsAtomic (Service.withdraw repo fresh wallet amount other)
        × IsAtomic (Service.pay_with_wallet repo fresh wallet amount other)
        × IsAtomic (Service.refund repo fresh wallet amount other)
        × IsAtomic (Service.adjustment repo fresh wallet amount reason other)
        × IsAtomic (Service.suspend_wallet repo fresh wallet)
        × IsAtomic (Service.activate_wallet repo fresh wallet)
        × IsAtomic (Service.close_wallet repo fresh wallet)
  unfolding Service.deposit Service.withdraw Service.pay_with_wallet Service.refund
      Service.adjustment Service.suspend_wallet Service.activate_wallet Service.close_wallet
  commands-IsAtomic fresh generated wallet user other currency reason amount = (
    create_wallet-IsAtomic fresh generated wallet user currency,
    with_wallet_id-IsAtomic wallet _ (λ id. paid-IsAtomic amount _ id _),
    with_wallet_id-IsAtomic wallet _ (λ id. paid-IsAtomic amount _ id _),
    with_wallet_id-IsAtomic wallet _
        (λ id. with_booking_id-IsAtomic other _ λ booking. paid-IsAtomic amount _ id _),
    with_wallet_id-IsAtomic wallet _ (λ id. paid-IsAtomic amount _ id _),
    with_wallet_id-IsAtomic wallet _ (λ id.
        IsAtomic-bind (raise_if (is_zero amount) (value_error "Adjustment amount cannot be zero")) _
          (raise_if-IsReader _ _)
          λ _.
            IsAtomic-bind
              (raise_if (not (is_truthy reason) || not (is_truthy (strip reason)))
                (value_error "Adjustment reason is required"))
              _ (raise_if-IsReader _ _) λ _. update-IsAtomic id _),
    with_wallet_id-IsAtomic wallet _ (λ id. update-IsAtomic id _),
    with_wallet_id-IsAtomic wallet _ (λ id. update-IsAtomic id _),
    with_wallet_id-IsAtomic wallet _ (λ id. update-IsAtomic id _),
  )
