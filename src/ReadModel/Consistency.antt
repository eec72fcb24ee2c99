-- ===== src/ReadModel/Consistency.antt =====
-- The read model's status and currency against the aggregate's: projector.py and the handlers
-- `when_…Event` of aggregate.py on the same events.
use mathlib.Core.Path.{subst}
use microservice_wallet_serv.Base.{
  ℕ, ◌≡◌, refl, sym, ◌∙◌, ap, inl, inr, false, some, List, [], ◌∷◌, arith, ◌==◌, ==_refl, ==_sound,
  Bool-cases, if◌then◌else◌,
}
use microservice_wallet_serv.Base.Text.{upper}
use microservice_wallet_serv.Base.Dict.{lookup, lookup-insert}
use microservice_wallet_serv.Errors.{ok}
use microservice_wallet_serv.Errors.Exec.{bind_ok}
use microservice_wallet_serv.Event.{Body, WalletEvent, created}
use microservice_wallet_serv.Aggregate.{WalletAggregate, when, handler}
use microservice_wallet_serv.ReadModel.{WalletRow, ReadSide, status_name}
use microservice_wallet_serv.ReadModel.Projector.{project}
use microservice_wallet_serv.ReadModel.Steps.{RowStep, project_ok}
use microservice_wallet_serv.ReadModel.Ledger.{project_all}

-- the row shows the aggregate's status and its currency in upper case
pub record IsMirror (a : WalletAggregate) (s : ReadSide) : Type 0 where
  pub row : WalletRow
  pub found : lookup a.wallet_id s.wallets ≡ some row
  pub same_status : row.status ≡ status_name a.status
  pub same_currency : row.currency ≡ upper a.currency

abbrev Shows : WalletRow → WalletAggregate → Type 0
Shows row a = (row.status ≡ status_name a.status) × (row.currency ≡ upper a.currency)

row_follows :
    (e : WalletEvent) (b : Body) (a : WalletAggregate) (row r' : WalletRow)
    → Shows row a
    → RowStep e.user_id b (some row) r'
    → Shows r' (handler e b a)
unfolding handler
row_follows e (created c) a row r' h step = (step.3, step.2)
row_follows e _ a row r' h step = ground arith

when_keeps_id :
    (e : WalletEvent) (b : Body) (a : WalletAggregate) → (handler e b a).wallet_id ≡ a.wallet_id
unfolding handler
when_keeps_id e (created c) a = refl
when_keeps_id e _ a = refl

-- an accepted event of the wallet itself
own_event_mirrors :
    (now : ℕ) (e : WalletEvent) (a : WalletAggregate) (s : ReadSide)
    → e.wallet_id ≡ a.wallet_id
    → IsMirror a s
    → (project now e s).0 ≡ ok tt
    → IsMirror (when e a) (project now e s).1
unfolding when
own_event_mirrors now e a s own h accepted =
    let (r', step, written, _) = project_ok now e s accepted in
    let step' : RowStep e.user_id e.body (some h.row) r' =
      subst (λ o. RowStep e.user_id e.body o r') (ap (λ k. lookup k s.wallets) own ∙ h.found)
        step in
    let (status, currency) =
      row_follows e e.body a h.row r' (h.same_status, h.same_currency) step' in
    record {
      row = r';
      found = rw (when_keeps_id e e.body a) (
          rw written (
            lookup-insert e.wallet_id a.wallet_id r' s.wallets
            ∙ rw own (rw (==_refl a.wallet_id) refl)));
      same_status = status;
      same_currency = currency;
    }

-- an accepted event of another wallet
foreign_event_mirrors :
    (now : ℕ) (e : WalletEvent) (a : WalletAggregate) (s : ReadSide)
    → (e.wallet_id == a.wallet_id) ≡ false
    → IsMirror a s
    → (project now e s).0 ≡ ok tt
    → IsMirror a (project now e s).1
foreign_event_mirrors now e a s foreign h accepted =
    let (r', _, written, _) = project_ok now e s accepted in
    record {
      row = h.row;
      found = rw written (lookup-insert e.wallet_id a.wallet_id r' s.wallets ∙ rw foreign h.found);
      same_status = h.same_status;
      same_currency = h.same_currency;
    }

-- the aggregate after the events of a stream that are its own
unfoldable pub follow : WalletAggregate → List (ℕ × WalletEvent) → WalletAggregate
follow a [] = a
follow a ((_, e) ∷ es) = if e.wallet_id == a.wallet_id then follow (when e a) es else follow a es

-- Let the wallet's row show the aggregate's status and currency. When a stream of events of any
-- wallets has then been projected without an exception, the row shows those of the aggregate after
-- its own events of the stream.
pub project_all-IsMirror :
    (es : List (ℕ × WalletEvent)) (a : WalletAggregate) (s : ReadSide)
    → IsMirror a s
    → (project_all es s).0 ≡ ok tt
    → IsMirror (follow a es) (project_all es s).1
unfolding project_all follow
project_all-IsMirror [] a s h accepted = h
project_all-IsMirror ((now, e) ∷ es) a s h accepted =
    let (_, first, run) = bind_ok (project now e) (λ _. project_all es) s accepted in
    let rest : (project_all es (project now e s).1).0 ≡ ok tt =
      ap (λ p. p.0) (sym run) ∙ accepted in
    elim (Bool-cases (e.wallet_id == a.wallet_id)) [
      | inl own ↦
          rw (run, own)
            (project_all-IsMirror es (when e a) (project now e s).1
              (own_event_mirrors now e a s (==_sound e.wallet_id a.wallet_id own) h first) rest)
      | inr foreign ↦
          rw (run, foreign)
            (project_all-IsMirror es a (project now e s).1
              (foreign_event_mirrors now e a s foreign h first) rest)
    ]
