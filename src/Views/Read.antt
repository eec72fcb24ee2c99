-- ===== src/Views/Read.antt =====
-- A request that is written as a client writes it is read as it was meant.
use microservice_wallet_serv.Base.{
  String, ◌≡◌, refl, ap, ◌∙◌, inl, inr, true, Option, none, some, [], ◌∷◌,
}
use microservice_wallet_serv.Base.Text.{Text}
use microservice_wallet_serv.Errors.{Uuid, Result, ok}
use microservice_wallet_serv.Errors.Exec.{Exec}
use microservice_wallet_serv.Decimal.{Decimal}
use microservice_wallet_serv.Event.Json.{Json, null, str, obj, Fields, get, Codec}
use microservice_wallet_serv.Event.Serial.{id_or_null}
use microservice_wallet_serv.Event.RoundTrip.{parse_uuid-uuid_str, optional_uuid-id_or_null}
use microservice_wallet_serv.Event.Untyped.{
  all_in, subscript_found, get_or_found, all_in_found, all_in-nil, decimal_of_str-decimal_str,
}
use microservice_wallet_serv.Queries.{WalletView}
use microservice_wallet_serv.Handler
use microservice_wallet_serv.Handler.{CommandService}
use microservice_wallet_serv.Handler.Wrapping.{IsSafe, methods-IsSafe}
use microservice_wallet_serv.Views.{Response, is_authenticated}
use microservice_wallet_serv.Views.Balance.{
  Movement, optional_field, uuid_field, amount_field, read_movement, movement_body, payment_body,
  adjustment_body, deposit_call, withdraw_call, pay_call, refund_call, adjustment_call,
  deposit_view, withdraw_view, pay_view, refund_view, adjustment_view,
}
use microservice_wallet_serv.Views.Bodies.{BodyRequest, BodyView, serve_body}
use microservice_wallet_serv.Views.Answered.{Reads, outcome, serve_body-IsAnswered, IsAnswered}

-- a view answers by the outcome of the call whose arguments it reads
Reads-answers :
    {S O A : Type 0} (loads : Text → Option Json) (view : BodyView O A)
    (call : A → Exec S WalletView)
    → ((a : A) → IsSafe (call a))
    → (r : BodyRequest) (s : S) (a : A) → Reads loads view.required view r a
    → serve_body loads view call r s ≡ (ok (outcome view.status (call a s).0), (call a s).1)
unfolding IsAnswered
Reads-answers loads view call safe r s a reads =
    elim (serve_body-IsAnswered loads view call safe r s) [
      | inl (b, read, answered) ↦
          let same : b ≡ a = same_arguments b read in
          answered ∙ ap (λ x. (ok (outcome view.status (call x s).0), (call x s).1)) same
      | inr (none_read, _) ↦ absurd (none_read a reads)
    ]
  where
    same_arguments : (b : _) → Reads loads view.required view r b → b ≡ a
    same_arguments b read = cc

-- the fields of a body, by the values that a client means
pub record Sent (C : Codec) (fs : Fields) : Type 0 where
  pub wallet_id : Uuid
  pub amount : Decimal
  pub reason : Text
  pub reference_id : Option Uuid
  pub booking_id : Uuid
  pub admin_id : Option Uuid
  pub has_wallet_id : get "wallet_id" fs ≡ some (str (C.uuid_str wallet_id))
  pub has_amount : get "amount" fs ≡ some (str (C.decimal_str amount))
  pub has_reason : get "reason" fs ≡ some (str reason)
  pub has_reference_id : get "reference_id" fs ≡ some (id_or_null C reference_id)
  pub has_booking_id : get "booking_id" fs ≡ some (str (C.uuid_str booking_id))
  pub has_admin_id : get "admin_id" fs ≡ some (id_or_null C admin_id)

module _ (C : Codec) (fs : Fields) (sent : Sent C fs) where
  uuid_field-sent :
      (k : String) (u : Uuid)
      → get k fs ≡ some (str (C.uuid_str u))
      → uuid_field C k (obj fs) ≡ ok u
  unfolding uuid_field
  uuid_field-sent k u h = rw (subscript_found k fs h) (parse_uuid-uuid_str C u)

  optional_field-sent :
      (k : String) (o : Option Uuid)
      → get k fs ≡ some (id_or_null C o)
      → optional_field C k (obj fs) ≡ ok o
  unfolding optional_field
  optional_field-sent k o h = rw (get_or_found k fs h null) (optional_uuid-id_or_null C o)

  amount_field-sent : amount_field C (obj fs) ≡ ok sent.amount
  unfolding amount_field
  amount_field-sent =
      rw (subscript_found "amount" fs sent.has_amount) (decimal_of_str-decimal_str C sent.amount)

  read_movement-sent :
      (reference : Option Uuid)
      → read_movement C reference (obj fs)
        ≡ ok (record {
          wallet_id = sent.wallet_id;
          amount = sent.amount;
          reason = [];
          reference = reference;
        })
  unfolding read_movement
  read_movement-sent reference =
      rw (uuid_field-sent "wallet_id" sent.wallet_id sent.has_wallet_id, amount_field-sent) refl

  all_in-movement : all_in ("wallet_id" ∷ "amount" ∷ []) (obj fs) ≡ ok true
  all_in-movement =
      all_in_found "wallet_id" fs sent.has_wallet_id ("amount" ∷ [])
      ∙ all_in_found "amount" fs sent.has_amount []
      ∙ all_in-nil (obj fs)

  all_in-third :
      (k : String) {v : Json}
      → get k fs ≡ some v
      → all_in ("wallet_id" ∷ "amount" ∷ k ∷ []) (obj fs) ≡ ok true
  all_in-third k h =
      all_in_found "wallet_id" fs sent.has_wallet_id ("amount" ∷ k ∷ [])
      ∙ all_in_found "amount" fs sent.has_amount (k ∷ [])
      ∙ all_in_found k fs h []
      ∙ all_in-nil (obj fs)

  abbrev movement : Text → Option Uuid → Movement
  movement reason reference = record {
    wallet_id = sent.wallet_id;
    amount = sent.amount;
    reason = reason;
    reference = reference;
  }

  module _ (loads : Text → Option Json) (r : BodyRequest) (posted : r.is_post ≡ true)
      (authenticated : is_authenticated r.request ≡ true)
      (loaded : loads r.body ≡ some (obj fs)) where
    movement-Reads :
        (k : String) (reference : Option Uuid)
        → get k fs ≡ some (id_or_null C reference)
        → Reads loads (movement_body C k).required (movement_body C k) r (movement [] reference)
    unfolding movement_body
    movement-Reads k reference h = record {
      posted = posted;
      authenticated = authenticated;
      json = obj fs;
      loaded = loaded;
      complete = all_in-movement;
      before = reference;
      read_before = optional_field-sent k reference h;
      read = read_movement-sent reference;
    }

    payment-Reads :
        Reads loads
          (payment_body C).required
          (payment_body C)
          r
          (movement [] (some sent.booking_id))
    unfolding payment_body
    payment-Reads = record {
      posted = posted;
      authenticated = authenticated;
      json = obj fs;
      loaded = loaded;
      complete = all_in-third "booking_id" sent.has_booking_id;
      before = tt;
      read_before = refl;
      read =
          rw
            (
              read_movement-sent none,
              uuid_field-sent "booking_id" sent.booking_id sent.has_booking_id,
            )
            refl;
    }

    adjustment-Reads :
        Reads loads
          (adjustment_body C).required
          (adjustment_body C)
          r
          (movement sent.reason sent.admin_id)
    unfolding adjustment_body
    adjustment-Reads = record {
      posted = posted;
      authenticated = authenticated;
      json = obj fs;
      loaded = loaded;
      complete = all_in-third "reason" sent.has_reason;
      before = sent.admin_id;
      read_before = optional_field-sent "admin_id" sent.admin_id sent.has_admin_id;
      read =
          rw (read_movement-sent sent.admin_id, subscript_found "reason" fs sent.has_reason) refl;
    }

-- answered 200 or 400 by the outcome of a call, and left in its state
abbrev pub AnswersBy : {S : Type 0} → Result Response × S → Exec S WalletView → S → Type 0
AnswersBy out m s = out ≡ (ok (outcome 200 (m s).0), (m s).1)

-- A POST of a user, with a JSON object that has the wallet's id and the amount as `str` writes
-- them, a reason, and the ids of a reference, a booking and an admin (the first and the last may be
-- null), makes each of the five views on a balance run its handler's method on exactly those
-- values, and answer 200 when it returns and 400 when it raises.
pub sent_answers :
    {S : Type 0} (loads : Text → Option Json) (C : Codec) (commands : CommandService S)
    (get_wallet : Option Uuid → Exec S WalletView) (fs : Fields) (sent : Sent C fs)
    (r : BodyRequest) (s : S)
    → r.is_post ≡ true
    → is_authenticated r.request ≡ true
    → loads r.body ≡ some (obj fs)
    → AnswersBy
        (deposit_view loads C commands get_wallet r s)
        (Handler.deposit commands get_wallet (some sent.wallet_id) sent.amount sent.reference_id)
        s
      × AnswersBy
          (withdraw_view loads C commands get_wallet r s)
          (Handler.withdraw commands get_wallet (some sent.wallet_id) sent.amount sent.reference_id)
          s
      × AnswersBy
          (pay_view loads C commands get_wallet r s)
          (Handler.pay_with_wallet commands get_wallet
            (some sent.wallet_id)
            sent.amount
            (some sent.booking_id))
          s
      × AnswersBy
          (refund_view loads C commands get_wallet r s)
          (Handler.refund commands get_wallet
            (some sent.wallet_id)
            sent.amount
            (some sent.booking_id))
          s
      × AnswersBy
          (adjustment_view loads C commands get_wallet r s)
          (Handler.adjustment commands get_wallet
            (some sent.wallet_id)
            sent.amount
            sent.reason
            sent.admin_id)
          s
unfolding deposit_view withdraw_view pay_view refund_view adjustment_view deposit_call withdraw_call
    pay_call refund_call adjustment_call movement_body payment_body adjustment_body
sent_answers loads C commands get_wallet fs sent r s posted authenticated loaded =
    let safe = λ (m : Movement).
      methods-IsSafe commands get_wallet none (some m.wallet_id) m.reference [] m.reason m.amount in
    (
      Reads-answers loads (movement_body C "reference_id") (deposit_call commands get_wallet)
          (λ m. (safe m).1) r s _
          (movement-Reads C fs sent loads r posted authenticated loaded "reference_id"
            sent.reference_id sent.has_reference_id),
      Reads-answers loads (movement_body C "reference_id") (withdraw_call commands get_wallet)
          (λ m. (safe m).2) r s _
          (movement-Reads C fs sent loads r posted authenticated loaded "reference_id"
            sent.reference_id sent.has_reference_id),
      Reads-answers loads (payment_body C) (pay_call commands get_wallet) (λ m. (safe m).3) r s _
          (payment-Reads C fs sent loads r posted authenticated loaded),
      Reads-answers loads (movement_body C "booking_id") (refund_call commands get_wallet)
          (λ m. (safe m).4) r s _
          (movement-Reads C fs sent loads r posted authenticated loaded "booking_id"
            (some sent.booking_id) sent.has_booking_id),
      Reads-answers loads (adjustment_body C) (adjustment_call commands get_wallet)
          (λ m. (safe m).5) r s _ (adjustment-Reads C fs sent loads r posted authenticated loaded),
    )
