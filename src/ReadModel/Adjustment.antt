-- ===== src/ReadModel/Adjustment.antt =====
-- What a movement of money does to the balance: the amount rules of aggregate.py and projector.py
-- together.
use mathlib.Core.Path.{subst}
use microservice_wallet_serv.Base.{
  ℕ, ◌^◌, ◌≡◌, refl, inl, inr, sym, ap, ◌∙◌, false, List, [], ◌∷◌, ◌++◌, Option, arith, Bool-cases,
  ◌==◌, ==_refl, ltb,
}
use microservice_wallet_serv.Base.Int.{ℤ, pos, ◌≤ℤ◌, int_laws}
use microservice_wallet_serv.Base.Text.{Text}
use microservice_wallet_serv.Errors.{Uuid, ok}
use microservice_wallet_serv.Decimal.{
  Decimal, finite, infinite, nan, abs, round_to_context, quantize, signed, excess_digits, half_even,
  precision_limit,
}
use microservice_wallet_serv.Event.{WalletEvent}
use microservice_wallet_serv.Event.Serial.{Fresh}
use microservice_wallet_serv.Aggregate.{WalletAggregate, new_event, apply}
use microservice_wallet_serv.Aggregate.Operations.{adjustment, perform}
use microservice_wallet_serv.Aggregate.Request.{Operation}
use microservice_wallet_serv.Aggregate.Guards.{event_body, perform_outcome}
use microservice_wallet_serv.Aggregate.Replay.{apply_records}
use microservice_wallet_serv.ReadModel.{ReadSide}
use microservice_wallet_serv.ReadModel.Projector.{project}
use microservice_wallet_serv.ReadModel.Ledger.{balance_of, units, project-ledger_entry}

units_nonneg : (c : ℕ) (e : ℤ) → pos 0 ≤ℤ units (finite false c e)
unfolding quantize signed
units_nonneg c e = ground arith

round_to_context_finite :
    (c : ℕ) (e : ℤ) → (c' : ℕ) × (e' : ℤ) × (round_to_context false c e ≡ finite false c' e')
unfolding round_to_context
round_to_context_finite c e =
    let k = excess_digits c c in
    let c' = half_even c (10 ^ k) in
    elim (Bool-cases (k == 0)) [
      | inl short ↦ (c, e, rw short refl)
      | inr long ↦ elim (Bool-cases (ltb c' precision_limit)) [
        | inl fits ↦ rw (long, fits) (_, _, refl)
        | inr carried ↦ rw (long, carried) (_, _, refl)
      ]
    ]

abs_units : (d : Decimal) → pos 0 ≤ℤ units (abs d)
unfolding abs
abs_units (finite s c e) =
    let (c', e', rounded) = round_to_context_finite c e in rw rounded (units_nonneg c' e')
abs_units (infinite s) = (unfold quantize in omega arith)
abs_units nan = (unfold quantize in omega arith)

-- the event that `adjustment` applies when it applies one
abbrev pub adjustment_event : Fresh → WalletAggregate → Decimal → Text → Option Uuid → WalletEvent
adjustment_event fresh a amount reason admin =
    new_event fresh a (event_body (Operation.adjustment amount reason admin) a)

entry_never_lowers :
    (fresh : Fresh) (now : ℕ) (a : WalletAggregate) (amount : Decimal) (reason : Text)
    (admin : Option Uuid) (s : ReadSide)
    → (project now (adjustment_event fresh a amount reason admin) s).0 ≡ ok tt
    → balance_of s a.wallet_id
      ≤ℤ balance_of (project now (adjustment_event fresh a amount reason admin) s).1 a.wallet_id
unfolding new_event
entry_never_lowers fresh now a amount reason admin s h =
    let entry =
      project-ledger_entry now (adjustment_event fresh a amount reason admin) s a.wallet_id h in
    rw (entry, ==_refl a.wallet_id) (grind (int_laws, abs_units amount))

same_last : (xs : List WalletEvent) {d e : WalletEvent} → xs ++ d ∷ [] ≡ xs ++ e ∷ [] → d ≡ e
same_last [] h = cc
same_last (x ∷ xs) h = same_last xs cc

no_longer : (xs : List WalletEvent) (e : WalletEvent) → xs ≡ xs ++ e ∷ [] → ⊥
no_longer [] e h = cc
no_longer (x ∷ xs) e h = no_longer xs e cc

-- what `adjustment` records is the event above
recorded :
    (fresh : Fresh) (a b : WalletAggregate) (amount : Decimal) (reason : Text) (admin : Option Uuid)
    (e : WalletEvent)
    → adjustment fresh amount reason admin a ≡ (ok tt, b)
    → b.uncommitted_events ≡ a.uncommitted_events ++ e ∷ []
    → e ≡ adjustment_event fresh a amount reason admin
unfolding perform
recorded fresh a b amount reason admin e h held =
    let made = adjustment_event fresh a amount reason admin in
    elim (perform_outcome fresh (Operation.adjustment amount reason admin) a) [
      | inl same ↦
          let left : b ≡ a = sym (ap (λ p. p.1) h) ∙ same in
          absurd
            (no_longer a.uncommitted_events e (sym (ap (λ x. x.uncommitted_events) left) ∙ held))
      | inr applied ↦
          let left : b ≡ apply made a = sym (ap (λ p. p.1) h) ∙ ap (λ p. p.1) applied in
          same_last a.uncommitted_events
            (sym held ∙ ap (λ x. x.uncommitted_events) left ∙ apply_records made a)
    ]

-- When `adjustment` returns and has recorded an event, and that event is projected without an
-- exception, the balance of the wallet does not fall, whatever the sign of the amount that the
-- method was called with.
pub adjustment_never_lowers :
    (fresh : Fresh) (now : ℕ) (a b : WalletAggregate) (amount : Decimal) (reason : Text)
    (admin : Option Uuid) (e : WalletEvent) (s : ReadSide)
    → adjustment fresh amount reason admin a ≡ (ok tt, b)
    → b.uncommitted_events ≡ a.uncommitted_events ++ e ∷ []
    → (project now e s).0 ≡ ok tt
    → balance_of s a.wallet_id ≤ℤ balance_of (project now e s).1 a.wallet_id
adjustment_never_lowers fresh now a b amount reason admin e s h held projected =
    let made = recorded fresh a b amount reason admin e h held in
    subst
      (λ x.
        (project now x s).0 ≡ ok tt
        → balance_of s a.wallet_id ≤ℤ balance_of (project now x s).1 a.wallet_id)
      (sym made) (entry_never_lowers fresh now a amount reason admin s) projected
