-- ===== src/ReadModel/Ledger.antt =====
-- The balance as a ledger: what projector.py makes of a stream of events, wallet by wallet. The
-- stream is handled as the loop of management/commands/rebuild_wallet_projection.py does it.
use microservice_wallet_serv.Base.{
  ℕ, ◌≡◌, refl, ap, ◌∙◌, inl, inr, Option, none, some, List, [], ◌∷◌, arith, Bool-cases, ==_sound,
  ◌==◌, if◌then◌else◌,
}
use mathlib.Core.List.{foldl}
use mathlib.Core.Path.{subst}
use microservice_wallet_serv.Base.Int.{ℤ, pos, ◌+ℤ◌, ◌-ℤ◌, ◌≤ℤ◌}
use microservice_wallet_serv.Base.Dict.{lookup, lookup-insert}
use microservice_wallet_serv.Errors.{Uuid, ok, err, PyError, Result-cases}
use microservice_wallet_serv.Errors.Exec.{pure, bind_ok, atomic_failed, ◌>>◌}
use microservice_wallet_serv.Decimal.{Decimal, quantize}
use microservice_wallet_serv.Event.{
  Body, created, deposited, withdrawn, payment_made, refunded, adjusted, WalletEvent,
}
use microservice_wallet_serv.ReadModel.{WalletRow, ReadSide, check_row, put_row}
use microservice_wallet_serv.ReadModel.Projector.{Projection, handle, project}
use microservice_wallet_serv.ReadModel.Steps.{RowStep, project_ok}

-- `for record in events: … project(event)`, which stops at the first exception
unfoldable pub project_all : List (ℕ × WalletEvent) → Projection
project_all [] = pure tt
project_all ((now, e) ∷ es) = do project now e; project_all es

-- the amount in ten-thousandths, 0 where it has none
abbrev pub units : Decimal → ℤ
units amount = elim (quantize amount) [ ok q ↦ q | err _ ↦ pos 0 ]

-- The ledger's rule for an event of the wallet itself.
abbrev pub posting : Body → ℤ → ℤ
posting (created _) balance = pos 0
posting (deposited amount _ _) balance = balance +ℤ units amount
posting (refunded amount _ _) balance = balance +ℤ units amount
posting (adjusted amount _ _ _) balance = balance +ℤ units amount
posting (withdrawn amount _ _) balance = balance -ℤ units amount
posting (payment_made amount _ _) balance = balance -ℤ units amount
posting _ balance = balance

abbrev pub ledger_entry : Uuid → ℤ → ℕ × WalletEvent → ℤ
ledger_entry id balance (_, e) = if e.wallet_id == id then posting e.body balance else balance

abbrev pub row_balance : Option WalletRow → ℤ
row_balance none = pos 0
row_balance (some row) = row.balance

-- a wallet's balance, 0 for one that has no row
unfoldable pub balance_of : ReadSide → Uuid → ℤ
balance_of s id = row_balance (lookup id s.wallets)

posting_lem :
    (user : Uuid) (b : Body) (o : Option WalletRow) (r' : WalletRow)
    → RowStep user b o r'
    → r'.balance ≡ posting b (row_balance o)
posting_lem user (created c) o r' h = h.1
posting_lem user _ o r' h = ground arith

-- One accepted event enters the ledger of every wallet as the rule says.
pub project-ledger_entry :
    (now : ℕ) (e : WalletEvent) (s : ReadSide) (id : Uuid)
    → (project now e s).0 ≡ ok tt
    → balance_of (project now e s).1 id ≡ ledger_entry id (balance_of s id) (now, e)
unfolding balance_of
project-ledger_entry now e s id h =
    let (r', step, written, _) = project_ok now e s h in
    rw written (
      rw (lookup-insert e.wallet_id id r' s.wallets) (elim (Bool-cases (e.wallet_id == id)) [
        | inl own ↦ rw own (
            posting_lem e.user_id e.body (lookup id s.wallets) r' (
              subst (λ k. RowStep e.user_id e.body (lookup k s.wallets) r')
                (==_sound e.wallet_id id own) step))
        | inr foreign ↦ rw foreign
      ]))

-- When a stream of events has been projected without an exception, the balance of every wallet is
-- the ledger of the stream: from the balance before, each of the wallet's events in turn sets it to
-- 0 (created), adds its amount (deposited, refunded, adjusted), takes it away (withdrawn, payment
-- made) or leaves it, and the events of other wallets leave it.
pub project_all-ledger :
    (es : List (ℕ × WalletEvent)) (s : ReadSide) (id : Uuid)
    → (project_all es s).0 ≡ ok tt
    → balance_of (project_all es s).1 id ≡ foldl (ledger_entry id) (balance_of s id) es
unfolding project_all
project_all-ledger [] s id h = refl
project_all-ledger ((now, e) ∷ es) s id h =
    let (_, first, rest) = bind_ok (project now e) (λ _. project_all es) s h in
    let s' = (project now e s).1 in
    ap (λ p. balance_of p.1 id) rest
    ∙ project_all-ledger es s' id (rw (← rest) h)
    ∙ ap (λ b. foldl (ledger_entry id) b es) (project-ledger_entry now e s id first)

-- Every balance is at least 0.
pub record IsSolvent (s : ReadSide) : Type 0 where
  pub at_wallet : (id : Uuid) → pos 0 ≤ℤ balance_of s id

check_row_nonneg : (row : WalletRow) → check_row row ≡ ok tt → pos 0 ≤ℤ row.balance
unfolding check_row
check_row_nonneg row h = ground arith

solvent_row :
    (s : ReadSide) (id j : Uuid) (row : WalletRow)
    → IsSolvent s
    → check_row row ≡ ok tt
    → pos 0 ≤ℤ balance_of (put_row j row s) id
unfolding balance_of
solvent_row s id j row h c =
    rw (lookup-insert j id row s.wallets) (ground (arith, h.at_wallet id, check_row_nonneg row c))

-- an exception leaves the tables as they were
pub project_failed :
    (now : ℕ) (e : WalletEvent) (s : ReadSide) {x : PyError}
    → (project now e s).0 ≡ err x
    → (project now e s).1 ≡ s
unfolding project
project_failed now e s h = atomic_failed (handle now e e.body) s h

-- No event makes a balance negative: when every balance is at least 0, it still is after any event,
-- accepted or refused.
pub project-IsSolvent :
    (now : ℕ) (e : WalletEvent) (s : ReadSide) → IsSolvent s → IsSolvent (project now e s).1
project-IsSolvent now e s h = elim (Result-cases (project now e s).0) [
  | inl (_, accepted) ↦
      let (r', _, written, checked) = project_ok now e s accepted in
      rw written (record { at_wallet = λ id. solvent_row s id e.wallet_id r' h checked })
  | inr (_, refused) ↦ rw (project_failed now e s refused) h
]
