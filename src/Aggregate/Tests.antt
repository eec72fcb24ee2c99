-- ===== src/Aggregate/Tests.antt =====
-- The aggregate's theorems at concrete wallets.
use microservice_wallet_serv.Base.{◌≡◌, ◌↔◌, refl, false, none, List, [], ◌∷◌, ◌+◌, length}
use microservice_wallet_serv.Base.Int.{negsuc}
use microservice_wallet_serv.Base.Text.{text, upper, same_text}
use microservice_wallet_serv.Errors.{ok}
use microservice_wallet_serv.Decimal.{Decimal, finite, le_zero}
use microservice_wallet_serv.Event.Serial.{Fresh}
use microservice_wallet_serv.Event.Samples.{sample_fresh}
use microservice_wallet_serv.Aggregate.{active, closed, WalletAggregate}
use microservice_wallet_serv.Aggregate.Request.{Operation}
use microservice_wallet_serv.Aggregate.Operations
use microservice_wallet_serv.Aggregate.Operations.{perform}
use microservice_wallet_serv.Aggregate.Guards.{perform_ok_iff}
use microservice_wallet_serv.Aggregate.Lifecycle.{
  perform_all, perform_all_status, status_after_all, perform_all-closed,
}
use microservice_wallet_serv.Aggregate.Replay.{replay, settled, perform_all-replay}
use microservice_wallet_serv.Aggregate.Entity.{
  Wallet, InStep, suspend_entity, activate_entity, close_entity, lifecycle-InStep,
}

-- 12.50
abbrev pub price : Decimal
price = finite false 1250 (negsuc 1)

abbrev pub loaded : WalletAggregate
loaded = record {
  wallet_id = 7;
  user_id = 3;
  currency = text "USD";
  status = active;
  created_at = 10;
  updated_at = 20;
  version = 4;
  uncommitted_events = [];
}

abbrev shut : WalletAggregate
shut = record loaded { status = closed }

abbrev calls : List (Fresh × Operation)
calls =
    (sample_fresh, Operation.deposit price none)
    ∷ (sample_fresh, Operation.suspend)
    ∷ (sample_fresh, Operation.withdraw price none)
    ∷ (sample_fresh, Operation.close)
    ∷ []

perform_ok_iff_example :
    ((perform sample_fresh (Operation.deposit price none) loaded).0 ≡ ok tt)
    ↔ ((le_zero price ≡ ok false) × (active ≡ active) × (upper (text "USD") ≡ text "USD"))
perform_ok_iff_example =
    perform_ok_iff sample_fresh (Operation.deposit price none) loaded price refl

perform_all-closed_example : perform_all calls shut ≡ shut
perform_all-closed_example = perform_all-closed calls shut refl

perform_all-replay_example :
    (replay loaded (perform_all calls loaded).uncommitted_events
      ≡ settled (perform_all calls loaded) 4)
    × ((perform_all calls loaded).version
        ≡ 4 + length (perform_all calls loaded).uncommitted_events)
perform_all-replay_example = perform_all-replay calls loaded refl

-- of the four calls the withdrawal from the suspended wallet raises
calls_record_three : length (perform_all calls loaded).uncommitted_events ≡ 3
unfolding perform_all perform le_zero upper same_text
calls_record_three = refl

abbrev entity : Wallet
entity = record {
  wallet_id = 7;
  user_id = 3;
  currency = text "USD";
  status = active;
  created_at = 10;
  updated_at = 20;
}

lifecycle-InStep_example :
    InStep (suspend_entity 99 entity) (Operations.suspend sample_fresh loaded)
    × InStep (activate_entity 99 entity) (Operations.activate sample_fresh loaded)
    × InStep (close_entity 99 entity) (Operations.close sample_fresh loaded)
lifecycle-InStep_example =
    lifecycle-InStep sample_fresh 99 entity loaded (record { same_id = refl; same_status = refl })

perform_all_status_example :
    (perform_all calls loaded).status ≡ status_after_all calls loaded.status
perform_all_status_example = perform_all_status calls loaded
