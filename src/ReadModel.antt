-- ===== src/ReadModel.antt =====
-- The read side: infrastructure/apps/wallet/models.py, `ProjectionState` of
-- infrastructure/apps/eventstore/models.py, and infrastructure/projectors/wallet/projector.py.
-- A table is its rows by primary key; an UPDATE reports how many rows it matched, and a statement
-- that breaks a constraint of the schema raises.
pub mod Projector
pub mod Steps
pub mod Runner
pub mod Ledger
pub mod Consistency
pub mod Adjustment
pub mod Funds
pub mod Rebuild
mod Tests
use microservice_wallet_serv.Base.{
  ℕ, ◌+◌, ◌^◌, Bool, true, false, not, ◌&&◌, Option, none, some, List, [], length, ltb, leb, ◌==◌,
  if◌then◌else◌,
}
use microservice_wallet_serv.Base.Int.{ℤ, pos, leb_ℤ, pos_part, neg_part}
use microservice_wallet_serv.Base.Text.{Text, text}
use microservice_wallet_serv.Base.Dict.{Dict, lookup, insert}
use microservice_wallet_serv.Errors.{Uuid, Result, ok, err, integrity_error, data_error}
use microservice_wallet_serv.Errors.Exec.{Exec}
use microservice_wallet_serv.Aggregate.{WalletStatus, active, suspended, closed}

-- a row of `wallet_read_model`; the balance is in ten-thousandths
pub record WalletRow : Type 0 where
  pub user_id : Uuid
  pub balance : ℤ
  pub currency : Text
  pub status : Text
  pub created_at : ℕ
  pub updated_at : ℕ

pub record ProjectionState : Type 0 where
  pub version : ℕ
  pub last_event_id : Option Uuid

-- both tables; the projection has at most one row, named "wallet"
pub record ReadSide : Type 0 where
  pub wallets : Dict WalletRow
  pub projection : Option ProjectionState

-- `WalletStatus.….name`
unfoldable pub status_name : WalletStatus → Text
status_name active = text "ACTIVE"
status_name suspended = text "SUSPENDED"
status_name closed = text "CLOSED"

-- `WalletStatus.….value`
unfoldable pub status_value : WalletStatus → Text
status_value active = text "active"
status_value suspended = text "suspended"
status_value closed = text "closed"

-- `DecimalField(max_digits=24, decimal_places=4)`
abbrev pub digits_limit : ℕ
digits_limit = 10 ^ 24

-- What the schema checks of a row that is written: the columns' sizes, then
-- `check_wallet_balance_non_negative`.
unfoldable pub check_row : WalletRow → Result (Unit {0})
check_row row =
    if ltb 3 (length row.currency)
    then err data_error
    else if leb digits_limit (pos_part row.balance + neg_part row.balance)
    then err data_error
    else if leb_ℤ (pos 0) row.balance
    then ok tt
    else err integrity_error

abbrev pub put_row : Uuid → WalletRow → ReadSide → ReadSide
put_row id row s = record s { wallets = insert id row s.wallets }

abbrev write_row : Uuid → WalletRow → Result (Unit {0}) → ReadSide → Result (Unit {0}) × ReadSide
write_row id row (ok _) s = (ok tt, put_row id row s)
write_row id row (err e) s = (err e, s)

-- an INSERT or UPDATE of the row with this key
unfoldable pub save_row : Uuid → WalletRow → Exec ReadSide (Unit {0})
save_row id row s = write_row id row (check_row row) s
