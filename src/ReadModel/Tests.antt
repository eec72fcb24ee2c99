-- ===== src/ReadModel/Tests.antt =====
-- The read model's theorems at a concrete wallet with a balance of 12.50.
use mathlib.Core.List.{foldl}
use microservice_wallet_serv.Base.{ℕ, ◌≡◌, ◌⊎◌, refl, true, false, none, List, [], ◌∷◌, arith}
use microservice_wallet_serv.Base.Int.{pos, negsuc, ◌≤ℤ◌, ◌+ℤ◌}
use microservice_wallet_serv.Base.Text.{text, upper, strip}
use microservice_wallet_serv.Base.Dict.{lookup, insert}
use microservice_wallet_serv.Errors.{PyError, err, ok}
use microservice_wallet_serv.Decimal.{Decimal, finite, abs, is_zero, quantize, validate_amount}
use microservice_wallet_serv.Event.{WalletEvent, Body, deposited, withdrawn}
use microservice_wallet_serv.Event.Samples.{sample_codec, sample_fresh}
use microservice_wallet_serv.Aggregate.{WalletStatus, WalletAggregate, new_event}
use microservice_wallet_serv.Aggregate.Operations.{adjustment}
use microservice_wallet_serv.Base.{◌++◌}
use microservice_wallet_serv.ReadModel.{WalletRow, ReadSide, check_row, save_row, status_name}
use microservice_wallet_serv.ReadModel.Projector.{
  project, handle, update_where, require_updated, credit, set_status,
}
use microservice_wallet_serv.ReadModel.Ledger.{
  project_all, balance_of, ledger_entry, project_all-ledger, IsSolvent, project-IsSolvent,
}
use microservice_wallet_serv.ReadModel.Consistency.{IsMirror, follow, project_all-IsMirror}
use microservice_wallet_serv.ReadModel.Adjustment.{adjustment_event, adjustment_never_lowers}
use microservice_wallet_serv.ReadModel.Funds.{debited, project_debit}
use microservice_wallet_serv.ReadModel.Runner.{rebuild}
use microservice_wallet_serv.ReadModel.Rebuild.{events_of, rebuild_forgets, rebuild_ledger}
use microservice_wallet_serv.EventStore.{EventRow}
use microservice_wallet_serv.Base.{◌+◌}
use microservice_wallet_serv.Base.Text.{same_text}
use microservice_wallet_serv.Event.{created, event_type}
use microservice_wallet_serv.Event.Json.{end, get, is_true}
use microservice_wallet_serv.Event.Serial.{to_dict, from_dict, event_from_dict}
use microservice_wallet_serv.Event.TypeName.{normalize_wallet_event_type}
use microservice_wallet_serv.ReadModel.Projector.{on_wallet_created}
use microservice_wallet_serv.ReadModel.Runner.{
  get_or_create_state, wallet_rows, order_by_created, insert_by_created, replay_rows,
}

abbrev price : Decimal
price = finite false 1250 (negsuc 1)

abbrev row : WalletRow
row = record {
  user_id = 3;
  balance = pos 125000;
  currency = text "USD";
  status = text "ACTIVE";
  created_at = 10;
  updated_at = 10;
}

abbrev tables : ReadSide
tables = record { wallets = (7, row) ∷ []; projection = none }

abbrev event : Body → WalletEvent
event b = record {
  meta = record { event_id = 1; occurred_at = 50; schema_version = 1; wallet_id = 7; user_id = 3 };
  body = b;
}

abbrev feed : List (ℕ × WalletEvent)
feed = (60, event (deposited price (text "USD") none)) ∷ (61, event Body.suspended) ∷ []

accepted : (project_all feed tables).0 ≡ ok tt
unfolding project_all project handle credit set_status validate_amount quantize update_where
    require_updated save_row check_row status_name lookup insert ◌+ℤ◌
accepted = refl

project_all-ledger_example :
    balance_of (project_all feed tables).1 7 ≡ foldl (ledger_entry 7) (balance_of tables 7) feed
project_all-ledger_example = project_all-ledger feed tables 7 accepted

solvent : IsSolvent tables
unfolding balance_of lookup
solvent = record { at_wallet = λ id. ground arith }

project-IsSolvent_example :
    IsSolvent (project 60 (event (withdrawn price (text "USD") none)) tables).1
project-IsSolvent_example =
    project-IsSolvent 60 (event (withdrawn price (text "USD") none)) tables solvent

abbrev wallet : WalletAggregate
wallet = record {
  wallet_id = 7;
  user_id = 3;
  currency = text "USD";
  status = WalletStatus.active;
  created_at = 10;
  updated_at = 20;
  version = 4;
  uncommitted_events = [];
}

mirror : IsMirror wallet tables
unfolding lookup status_name upper
mirror = record { row = row; found = refl; same_status = refl; same_currency = refl }

project_all-IsMirror_example : IsMirror (follow wallet feed) (project_all feed tables).1
project_all-IsMirror_example = project_all-IsMirror feed wallet tables mirror accepted

-- an adjustment by -12.50
abbrev minus : WalletEvent
minus = adjustment_event sample_fresh wallet (finite true 1250 (negsuc 1)) (text "fee") none

minus_accepted : (project 60 minus tables).0 ≡ ok tt
unfolding project handle credit validate_amount quantize update_where require_updated save_row
    check_row lookup ◌+ℤ◌ abs new_event
minus_accepted = refl

-- the wallet after the adjustment
abbrev adjusted_wallet : WalletAggregate
adjusted_wallet = (adjustment sample_fresh (finite true 1250 (negsuc 1)) (text "fee") none wallet).1

wallet_adjusts :
    adjustment sample_fresh (finite true 1250 (negsuc 1)) (text "fee") none wallet
    ≡ (ok tt, adjusted_wallet)
unfolding adjustment is_zero strip same_text upper
wallet_adjusts = refl

wallet_records : adjusted_wallet.uncommitted_events ≡ wallet.uncommitted_events ++ minus ∷ []
unfolding adjustment is_zero strip same_text upper
wallet_records = refl

adjustment_never_lowers_example : balance_of tables 7 ≤ℤ balance_of (project 60 minus tables).1 7
adjustment_never_lowers_example =
    adjustment_never_lowers sample_fresh 60 wallet adjusted_wallet (finite true 1250 (negsuc 1))
      (text "fee") none minus tables wallet_adjusts wallet_records minus_accepted

project_debit_example :
    project 60 (event (withdrawn price (text "USD") none)) tables
    ≡ debited "WalletWithdrawnEvent" 7 row 125000 tables
unfolding lookup check_row validate_amount quantize
project_debit_example =
    project_debit 60 (event (withdrawn price (text "USD") none)) price "WalletWithdrawnEvent" tables
      row 125000 refl refl refl refl refl

rebuild_forgets_example :
    let start : ReadSide = record { wallets = []; projection = none } in
    (((rebuild sample_codec sample_fresh [] tables).0 ≡ ok tt)
      × (rebuild sample_codec sample_fresh [] tables ≡ rebuild sample_codec sample_fresh [] start))
    ⊎ ((x : PyError) × (rebuild sample_codec sample_fresh [] tables ≡ (err x, tables))
        × (rebuild sample_codec sample_fresh [] start ≡ (err x, start)))
rebuild_forgets_example =
    rebuild_forgets sample_codec sample_fresh [] tables (record { wallets = []; projection = none })

-- the row of an event in the event store
abbrev stored : ℕ → WalletEvent → EventRow
stored version e = record {
  id = 90 + version;
  aggregate_id = 7;
  aggregate_type = text "Wallet";
  aggregate_version = version;
  event_type = event_type e;
  event_payload = to_dict sample_codec e;
  metadata = end;
  created_at = 50 + version;
}

abbrev history : List EventRow
history =
    stored 2 (event (deposited price (text "USD") none))
    ∷ stored 1 (event (created (text "usd")))
    ∷ []

rebuilt : (rebuild sample_codec sample_fresh history tables).0 ≡ ok tt
unfolding rebuild get_or_create_state wallet_rows order_by_created insert_by_created replay_rows
    project handle credit on_wallet_created validate_amount quantize update_where require_updated
    save_row check_row status_name lookup insert ◌+ℤ◌ upper same_text event_type to_dict
    event_from_dict normalize_wallet_event_type from_dict get is_true
rebuilt = refl

rebuild_ledger_example :
    (es : List (ℕ × WalletEvent)) × (events_of sample_codec sample_fresh
        (order_by_created (wallet_rows history))
      ≡ ok es)
    × (balance_of (rebuild sample_codec sample_fresh history tables).1 7
        ≡ foldl (ledger_entry 7) (pos 0) es)
rebuild_ledger_example = rebuild_ledger sample_codec sample_fresh history tables 7 rebuilt
