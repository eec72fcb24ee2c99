-- ===== src/ReadModel/Steps.antt =====
-- What an accepted event does to the wallet's row: the handlers of projector.py, inverted.
use microservice_wallet_serv.Base.{
  ℕ, String, ◌≡◌, refl, inl, inr, Bool, true, Option, none, some, arith, Option-cases,
}
use microservice_wallet_serv.Base.Int.{ℤ, pos, ◌+ℤ◌, ◌-ℤ◌, leb_ℤ}
use microservice_wallet_serv.Base.Text.{Text, upper}
use microservice_wallet_serv.Base.Dict.{lookup}
use microservice_wallet_serv.Errors.{Uuid, ok}
use microservice_wallet_serv.Errors.Exec.{atomic_ok, lift, lift_ok, ◌>>=◌}
use microservice_wallet_serv.Decimal.{Decimal, quantize, validate_amount}
use microservice_wallet_serv.Event.{
  Body, created, deposited, withdrawn, payment_made, refunded, adjusted, WalletEvent,
}
use microservice_wallet_serv.Aggregate.{WalletStatus}
use microservice_wallet_serv.ReadModel.{WalletRow, ReadSide, status_name, check_row, put_row}
use microservice_wallet_serv.ReadModel.Projector.{
  update_where, require_updated, default_row, on_wallet_created, set_status, credit, debit, handle,
  project,
}

-- The new row is the old one with `change`, and the old one passed `test`.
abbrev pub Changed :
    (WalletRow → Bool) → (WalletRow → WalletRow) → Option WalletRow → WalletRow → Type 0
Changed test change o r' =
    (row : WalletRow) × (o ≡ some row) × (test row ≡ true) × (r' ≡ change row)

abbrev pub anything : WalletRow → Bool
anything _ = true

abbrev pub with_status : WalletStatus → WalletRow → WalletRow
with_status status row = record row { status = status_name status }

abbrev pub Credited : Decimal → Option WalletRow → WalletRow → Type 0
Credited amount o r' =
    (q : ℤ) × (quantize amount ≡ ok q)
    × Changed anything (λ row. record row { balance = row.balance +ℤ q }) o r'

abbrev pub Debited : Decimal → Option WalletRow → WalletRow → Type 0
Debited amount o r' =
    (q : ℤ) × (quantize amount ≡ ok q)
    × Changed (λ row. leb_ℤ q row.balance) (λ row. record row { balance = row.balance -ℤ q }) o r'

-- the wallet's row before and after an event
abbrev pub RowStep : Uuid → Body → Option WalletRow → WalletRow → Type 0
RowStep user (created c) o r' =
    (r'.user_id ≡ user)
    × (r'.balance ≡ pos 0)
    × (r'.currency ≡ upper c)
    × (r'.status ≡ status_name WalletStatus.active)
RowStep user Body.activated o r' = Changed anything (with_status WalletStatus.active) o r'
RowStep user Body.suspended o r' = Changed anything (with_status WalletStatus.suspended) o r'
RowStep user Body.closed o r' = Changed anything (with_status WalletStatus.closed) o r'
RowStep user (deposited amount _ _) o r' = Credited amount o r'
RowStep user (withdrawn amount _ _) o r' = Debited amount o r'
RowStep user (payment_made amount _ _) o r' = Debited amount o r'
RowStep user (refunded amount _ _) o r' = Credited amount o r'
RowStep user (adjusted amount _ _ _) o r' = Credited amount o r'

-- an UPDATE that must match a row, when it goes through
update_required :
    (name : String) (id : Uuid) (test : WalletRow → Bool) (change : WalletRow → WalletRow)
    (s : ReadSide)
    → let (r, s') = (update_where id test change >>= require_updated name id) s in
      r ≡ ok tt
      → (r' : WalletRow) × Changed test change (lookup id s.wallets) r'
        × (s' ≡ put_row id r' s)
        × (check_row r' ≡ ok tt)
unfolding update_where require_updated
update_required name id test change s h = elim (Option-cases (lookup id s.wallets)) [
  | inl missing ↦ absurd (ground arith)
  | inr (row, found) ↦ (change row, (row, found, ground arith, refl), ground arith, ground arith)
]

set_status_ok :
    (name : String) (status : WalletStatus) (e : WalletEvent) (s : ReadSide)
    → (set_status name status e s).0 ≡ ok tt
    → (r' : WalletRow) × Changed anything (with_status status) (lookup e.wallet_id s.wallets) r'
      × ((set_status name status e s).1 ≡ put_row e.wallet_id r' s)
      × (check_row r' ≡ ok tt)
unfolding set_status
set_status_ok name status e s h = update_required name e.wallet_id anything (with_status status) s h

credit_ok :
    (name : String) (e : WalletEvent) (amount : Decimal) (s : ReadSide)
    → (credit name e amount s).0 ≡ ok tt
    → (r' : WalletRow) × Credited amount (lookup e.wallet_id s.wallets) r'
      × ((credit name e amount s).1 ≡ put_row e.wallet_id r' s)
      × (check_row r' ≡ ok tt)
unfolding credit
credit_ok name e amount s h =
    let add = λ (q : ℤ) (row : WalletRow). record row { balance = row.balance +ℤ q } in
    let update =
      λ (q : ℤ). (update_where e.wallet_id anything (add q) >>= require_updated name e.wallet_id) in
    let (_, _, valid) =
      lift_ok (validate_amount amount) (λ _. lift (quantize amount) >>= update) s h in
    let (q, quantized, run) = lift_ok (quantize amount) update s (rw (← valid) h) in
    let (r', changed, written, checked) =
      update_required name e.wallet_id anything (add q) s (rw (← run) (rw (← valid) h)) in
    (r', (q, quantized, changed), rw (valid, run) written, checked)

debit_ok :
    (name : String) (e : WalletEvent) (amount : Decimal) (s : ReadSide)
    → (debit name e amount s).0 ≡ ok tt
    → (r' : WalletRow) × Debited amount (lookup e.wallet_id s.wallets) r'
      × ((debit name e amount s).1 ≡ put_row e.wallet_id r' s)
      × (check_row r' ≡ ok tt)
unfolding debit
debit_ok name e amount s h =
    let enough = λ (q : ℤ) (row : WalletRow). leb_ℤ q row.balance in
    let take = λ (q : ℤ) (row : WalletRow). record row { balance = row.balance -ℤ q } in
    let update = λ (q : ℤ).
      (update_where e.wallet_id (enough q) (take q) >>= require_updated name e.wallet_id) in
    let (_, _, valid) =
      lift_ok (validate_amount amount) (λ _. lift (quantize amount) >>= update) s h in
    let (q, quantized, run) = lift_ok (quantize amount) update s (rw (← valid) h) in
    let (r', changed, written, checked) =
      update_required name e.wallet_id (enough q) (take q) s (rw (← run) (rw (← valid) h)) in
    (r', (q, quantized, changed), rw (valid, run) written, checked)

created_ok :
    (now : ℕ) (e : WalletEvent) (c : Text) (s : ReadSide)
    → (on_wallet_created now e c s).0 ≡ ok tt
    → (r' : WalletRow) × RowStep e.user_id (created c) (lookup e.wallet_id s.wallets) r'
      × ((on_wallet_created now e c s).1 ≡ put_row e.wallet_id r' s)
      × (check_row r' ≡ ok tt)
unfolding on_wallet_created
created_ok now e c s h = elim (Option-cases (lookup e.wallet_id s.wallets)) [
  | inl missing ↦
      (default_row now none e.user_id c, (refl, refl, refl, refl), ground arith, ground arith)
  | inr (row, found) ↦
      (default_row now (some row) e.user_id c, (refl, refl, refl, refl), ground arith, ground arith)
]

handle_ok :
    (now : ℕ) (e : WalletEvent) (b : Body) (s : ReadSide)
    → (handle now e b s).0 ≡ ok tt
    → (r' : WalletRow) × RowStep e.user_id b (lookup e.wallet_id s.wallets) r'
      × ((handle now e b s).1 ≡ put_row e.wallet_id r' s)
      × (check_row r' ≡ ok tt)
unfolding handle
handle_ok now e (created c) s h = created_ok now e c s h
handle_ok now e Body.activated s h = set_status_ok _ WalletStatus.active e s h
handle_ok now e Body.suspended s h = set_status_ok _ WalletStatus.suspended e s h
handle_ok now e Body.closed s h = set_status_ok _ WalletStatus.closed e s h
handle_ok now e (deposited amount _ _) s h = credit_ok _ e amount s h
handle_ok now e (withdrawn amount _ _) s h = debit_ok _ e amount s h
handle_ok now e (payment_made amount _ _) s h = debit_ok _ e amount s h
handle_ok now e (refunded amount _ _) s h = credit_ok _ e amount s h
handle_ok now e (adjusted amount _ _ _) s h = credit_ok _ e amount s h

-- An accepted event has written one row, its wallet's, and the row meets the schema.
pub project_ok :
    (now : ℕ) (e : WalletEvent) (s : ReadSide)
    → (project now e s).0 ≡ ok tt
    → (r' : WalletRow) × RowStep e.user_id e.body (lookup e.wallet_id s.wallets) r'
      × ((project now e s).1 ≡ put_row e.wallet_id r' s)
      × (check_row r' ≡ ok tt)
unfolding project
project_ok now e s h =
    let same = atomic_ok (handle now e e.body) s h in
    let (r', step, written, checked) = handle_ok now e e.body s (rw same h) in
    (r', step, rw (← same) written, checked)
