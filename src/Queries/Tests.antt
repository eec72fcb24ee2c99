-- ===== src/Queries/Tests.antt =====
-- The queries' theorems at a table of one wallet.
use mathlib.Core.List.{foldl}
use microservice_wallet_serv.Base.{ℕ, ◌≡◌, refl, none, some, List, [], ◌∷◌}
use microservice_wallet_serv.Base.Int.{pos}
use microservice_wallet_serv.Base.Text.{text}
use microservice_wallet_serv.Base.Dict.{Dict, lookup, insert}
use microservice_wallet_serv.Errors.{ok, err, other}
use microservice_wallet_serv.Event.{WalletEvent, Body}
use microservice_wallet_serv.ReadModel.{WalletRow, ReadSide, check_row, save_row, status_name}
use microservice_wallet_serv.ReadModel.Projector.{
  project, handle, set_status, update_where, require_updated,
}
use microservice_wallet_serv.ReadModel.Ledger.{project_all, balance_of, ledger_entry}
use microservice_wallet_serv.Queries.{
  get_wallet, get_wallet_by_user, get_wallet_balance, get_balance, given, or_not_found,
}
use microservice_wallet_serv.Queries.Owner.{
  UserClient, get_wallet_with_owner, get_wallet_by_user_with_owner, wallet_balance,
}
use microservice_wallet_serv.Queries.Answers.{
  wallet_of, owner_never_matters, balance_answers_ledger,
}

abbrev rows : Dict WalletRow
rows =
    (
      7,
      record {
        user_id = 3;
        balance = pos 125000;
        currency = text "USD";
        status = text "ACTIVE";
        created_at = 10;
        updated_at = 10;
      },
    )
    ∷ []

abbrev users_down : UserClient
users_down _ = err (other "RuntimeError")

owner_never_matters_example :
    (wallet_of (get_wallet_with_owner users_down 7 rows) ≡ get_wallet (some 7) rows)
    × (wallet_of (get_wallet_by_user_with_owner users_down 3 rows)
        ≡ get_wallet_by_user (some 3) rows)
owner_never_matters_example = owner_never_matters users_down 7 3 rows

abbrev tables : ReadSide
tables = record { wallets = rows; projection = none }

abbrev feed : List (ℕ × WalletEvent)
feed =
    (
      60,
      record {
        meta = record {
          event_id = 1;
          occurred_at = 50;
          schema_version = 1;
          wallet_id = 7;
          user_id = 3;
        };
        body = Body.suspended;
      },
    )
    ∷ []

accepted : (project_all feed tables).0 ≡ ok tt
unfolding project_all project handle set_status update_where require_updated save_row check_row
    status_name lookup
accepted = refl

answered : wallet_balance 7 (project_all feed tables).1.wallets ≡ ok (pos 125000)
unfolding project_all project handle set_status update_where require_updated save_row check_row
    status_name lookup insert wallet_balance get_wallet_balance get_balance given or_not_found
answered = refl

balance_answers_ledger_example : pos 125000 ≡ foldl (ledger_entry 7) (balance_of tables 7) feed
balance_answers_ledger_example = balance_answers_ledger feed tables 7 (pos 125000) accepted answered
