-- ===== src/ReadModel/Funds.antt =====
-- When projector.py accepts an event that takes money.
use microservice_wallet_serv.Base.{
  ℕ, String, ◌≡◌, ◌∙◌, ap, inl, inr, Option, none, some, arith, Bool-cases, if◌then◌else◌,
}
use microservice_wallet_serv.Base.Int.{pos, ◌-ℤ◌, ◌≤ℤ◌, leb_ℤ}
use microservice_wallet_serv.Base.Dict.{lookup}
use microservice_wallet_serv.Errors.{Uuid, Result, ok, err, projection_violation}
use microservice_wallet_serv.Errors.Exec.{rollback, ◌>>=◌}
use microservice_wallet_serv.Decimal.{Decimal, quantize, validate_amount}
use microservice_wallet_serv.Event.{Body, WalletEvent, withdrawn, payment_made}
use microservice_wallet_serv.ReadModel.{WalletRow, ReadSide, check_row, save_row, put_row}
use microservice_wallet_serv.ReadModel.Projector.{
  update_where, require_updated, debit, handle, project,
}

-- taking a part of the balance leaves a row that meets the schema
check_row_debited :
    (row : WalletRow) (q : ℕ)
    → check_row row ≡ ok tt
    → pos q ≤ℤ row.balance
    → check_row (record row { balance = row.balance -ℤ pos q }) ≡ ok tt
unfolding check_row ◌-ℤ◌
check_row_debited row q h enough = ground arith

-- the outcome of a debit of a wallet that has a row, by the funds
abbrev pub debited : String → Uuid → WalletRow → ℕ → ReadSide → Result (Unit {0}) × ReadSide
debited name id row q s =
    if leb_ℤ (pos q) row.balance
    then (ok tt, put_row id (record row { balance = row.balance -ℤ pos q }) s)
    else (err (projection_violation name id), s)

-- the UPDATE of a debit, and the check that it matched
take_funds :
    (name : String) (id : Uuid) (s : ReadSide) (row : WalletRow) (q : ℕ)
    → lookup id s.wallets ≡ some row
    → check_row row ≡ ok tt
    → (update_where id
            (λ r. leb_ℤ (pos q) r.balance)
            (λ r. record r { balance = r.balance -ℤ pos q })
          >>= require_updated name id)
        s
      ≡ debited name id row q s
unfolding update_where require_updated save_row
take_funds name id s row q found sound = elim (Bool-cases (leb_ℤ (pos q) row.balance)) [
  | inl enough ↦ let kept = check_row_debited row q sound (ground arith) in ground arith
  | inr short ↦ ground arith
]

debit_lem :
    (name : String) (e : WalletEvent) (amount : Decimal) (s : ReadSide) (row : WalletRow) (q : ℕ)
    → lookup e.wallet_id s.wallets ≡ some row
    → check_row row ≡ ok tt
    → validate_amount amount ≡ ok tt
    → quantize amount ≡ ok (pos q)
    → debit name e amount s ≡ debited name e.wallet_id row q s
unfolding debit
debit_lem name e amount s row q found sound valid quantized =
    rw (valid, quantized) (take_funds name e.wallet_id s row q found sound)

-- the amount and the event's name in ProjectionInvariantViolation, for an event that takes money
abbrev pub taken : Body → Option (Decimal × String)
taken (withdrawn amount _ _) = some (amount, "WalletWithdrawnEvent")
taken (payment_made amount _ _) = some (amount, "WalletPaymentMadeEvent")
taken _ = none

handle_debit :
    (now : ℕ) (e : WalletEvent) (b : Body) (amount : Decimal) (name : String) (s : ReadSide)
    (row : WalletRow) (q : ℕ)
    → taken b ≡ some (amount, name)
    → lookup e.wallet_id s.wallets ≡ some row
    → check_row row ≡ ok tt
    → validate_amount amount ≡ ok tt
    → quantize amount ≡ ok (pos q)
    → handle now e b s ≡ debited name e.wallet_id row q s
unfolding handle
handle_debit now e (withdrawn m _ _) amount name s row q takes found sound valid quantized =
    ground (arith, debit_lem "WalletWithdrawnEvent" e m s row q)
handle_debit now e (payment_made m _ _) amount name s row q takes found sound valid quantized =
    ground (arith, debit_lem "WalletPaymentMadeEvent" e m s row q)
handle_debit now e _ amount name s row q takes found sound valid quantized = absurd (ground arith)

rollback-debited :
    (name : String) (id : Uuid) (row : WalletRow) (q : ℕ) (s : ReadSide)
    → rollback s (debited name id row q s) ≡ debited name id row q s
rollback-debited name id row q s = ground arith

-- A withdrawal or a payment of an amount that is valid and not negative, from a wallet whose row
-- meets the schema, is accepted exactly when the balance covers it. Then the balance falls by the
-- amount in ten-thousandths and nothing else changes. Otherwise the projection raises
-- ProjectionInvariantViolation and changes nothing.
pub project_debit :
    (now : ℕ) (e : WalletEvent) (amount : Decimal) (name : String) (s : ReadSide) (row : WalletRow)
    (q : ℕ)
    → taken e.body ≡ some (amount, name)
    → lookup e.wallet_id s.wallets ≡ some row
    → check_row row ≡ ok tt
    → validate_amount amount ≡ ok tt
    → quantize amount ≡ ok (pos q)
    → project now e s ≡ debited name e.wallet_id row q s
unfolding project
project_debit now e amount name s row q takes found sound valid quantized =
    ap (rollback s)
      (handle_debit now e e.body amount name s row q takes found sound valid quantized)
    ∙ rollback-debited name e.wallet_id row q s
