-- ===== src/Views/Tests.antt =====
-- The views with a command service that raises.
use microservice_wallet_serv.Base.{ℕ, ◌≡◌, Option, true, none, some}
use microservice_wallet_serv.Base.Text.{text}
use microservice_wallet_serv.Errors.{Uuid, other, wallet_closed, wallet_not_found}
use microservice_wallet_serv.Errors.Exec.{Exec, raise}
use microservice_wallet_serv.Queries.{WalletView}
use microservice_wallet_serv.Handler
use microservice_wallet_serv.Handler.{CommandService}
use microservice_wallet_serv.Views.{Request, suspend_view, activate_view, close_view}
use microservice_wallet_serv.Views.Statuses.{expected, views_status}
use microservice_wallet_serv.Base.{false, refl, [], ◌∷◌}
use microservice_wallet_serv.Base.Int.{negsuc}
use microservice_wallet_serv.Base.Text.{Text}
use microservice_wallet_serv.Decimal.{Decimal, finite}
use microservice_wallet_serv.Event.Json.{Json, null, str, obj, Fields, field, end, get}
use microservice_wallet_serv.Event.Samples.{sample_codec, decimal_code}
use microservice_wallet_serv.Views.{is_authenticated}
use microservice_wallet_serv.Views.Bodies.{BodyRequest}
use microservice_wallet_serv.Views.Balance.{
  create_body, movement_body, payment_body, adjustment_body, create_call, deposit_call,
  withdraw_call, pay_call, refund_call, adjustment_call, create_view, deposit_view, withdraw_view,
  pay_view, refund_view, adjustment_view,
}
use microservice_wallet_serv.Views.Answered.{IsAnswered, views-IsAnswered}
use microservice_wallet_serv.Views.Read.{Sent, AnswersBy, sent_answers}
use microservice_wallet_serv.Base.Int.{pos}
use microservice_wallet_serv.Base.Dict.{Dict, lookup}
use microservice_wallet_serv.Errors.{err}
use microservice_wallet_serv.ReadModel.{WalletRow}
use microservice_wallet_serv.Queries.{view, of_user}
use microservice_wallet_serv.Queries.Owner.{UserClient, owner_of}
use microservice_wallet_serv.Views.Query
use microservice_wallet_serv.Views.Query.{
  wallet_and_owner, wallet_view, user_wallet_view, balance_view, exists_view,
}
use microservice_wallet_serv.Views.Found.{by_row, by_views, is_found, query_views_lem}

abbrev failing : CommandService ℕ
failing = record {
  create_wallet = λ _ _ _. raise (other "DatabaseError");
  deposit = λ _ _ _. raise (other "DatabaseError");
  withdraw = λ _ _ _. raise (other "DatabaseError");
  pay_with_wallet = λ _ _ _. raise (other "DatabaseError");
  refund = λ _ _ _. raise (other "DatabaseError");
  adjustment = λ _ _ _ _. raise (other "DatabaseError");
  suspend_wallet = λ id. raise (wallet_not_found id none);
  activate_wallet = λ _. raise (wallet_closed 7 "activate");
  close_wallet = λ _. raise (other "OSError");
}

abbrev find : Option Uuid → Exec ℕ WalletView
find id = raise (wallet_not_found id none)

abbrev request : Request
request = record { is_post = true; user_id = some (text "3") }

views_status_example :
    ((suspend_view failing find request 7 0).0.status
      ≡ expected request (Handler.suspend_wallet failing find (some 7) 0).0)
    × ((activate_view failing find request 7 0).0.status
        ≡ expected request (Handler.activate_wallet failing find (some 7) 0).0)
    × ((close_view failing find request 7 0).0.status
        ≡ expected request (Handler.close_wallet failing find (some 7) 0).0)
views_status_example = views_status failing find request 7 0

abbrev price : Decimal
price = finite false 1250 (negsuc 1)

abbrev fields : Fields
fields = field "wallet_id" (str (7 ∷ [])) (
    field "amount" (str (decimal_code price)) (
      field "reason" (str (text "goodwill")) (
        field "reference_id" null
          (field "booking_id" (str (5 ∷ [])) (field "admin_id" (str (9 ∷ [])) end)))))

found :
    (get "wallet_id" fields ≡ some (str (7 ∷ [])))
    × (get "amount" fields ≡ some (str (decimal_code price)))
    × (get "reason" fields ≡ some (str (text "goodwill")))
    × (get "reference_id" fields ≡ some null)
    × (get "booking_id" fields ≡ some (str (5 ∷ [])))
    × (get "admin_id" fields ≡ some (str (9 ∷ [])))
unfolding get
found = (refl, refl, refl, refl, refl, refl)

abbrev sent : Sent sample_codec fields
sent = record {
  wallet_id = 7;
  amount = price;
  reason = text "goodwill";
  reference_id = none;
  booking_id = 5;
  admin_id = some 9;
  has_wallet_id = found.0;
  has_amount = found.1;
  has_reason = found.2;
  has_reference_id = found.3;
  has_booking_id = found.4;
  has_admin_id = found.5;
}

abbrev body_request : BodyRequest
body_request = record { request = request; body = text "{}" }

abbrev loads : Text → Option Json
loads _ = some (obj fields)

sent_answers_example :
    AnswersBy
      (deposit_view loads sample_codec failing find body_request 0)
      (Handler.deposit failing find (some 7) price none)
      0
    × AnswersBy
        (withdraw_view loads sample_codec failing find body_request 0)
        (Handler.withdraw failing find (some 7) price none)
        0
    × AnswersBy
        (pay_view loads sample_codec failing find body_request 0)
        (Handler.pay_with_wallet failing find (some 7) price (some 5))
        0
    × AnswersBy
        (refund_view loads sample_codec failing find body_request 0)
        (Handler.refund failing find (some 7) price (some 5))
        0
    × AnswersBy
        (adjustment_view loads sample_codec failing find body_request 0)
        (Handler.adjustment failing find (some 7) price (text "goodwill") (some 9))
        0
unfolding is_authenticated
sent_answers_example =
    sent_answers loads sample_codec failing find fields sent body_request 0 refl refl refl

views-IsAnswered_example :
    IsAnswered loads 201 []
      (create_body sample_codec)
      (create_call failing find)
      body_request
      0
      (create_view loads sample_codec failing find body_request 0)
    × IsAnswered loads 200
        ("wallet_id" ∷ "amount" ∷ [])
        (movement_body sample_codec "reference_id")
        (deposit_call failing find)
        body_request
        0
        (deposit_view loads sample_codec failing find body_request 0)
    × IsAnswered loads 200
        ("wallet_id" ∷ "amount" ∷ [])
        (movement_body sample_codec "reference_id")
        (withdraw_call failing find)
        body_request
        0
        (withdraw_view loads sample_codec failing find body_request 0)
    × IsAnswered loads 200
        ("wallet_id" ∷ "amount" ∷ "booking_id" ∷ [])
        (payment_body sample_codec)
        (pay_call failing find)
        body_request
        0
        (pay_view loads sample_codec failing find body_request 0)
    × IsAnswered loads 200
        ("wallet_id" ∷ "amount" ∷ [])
        (movement_body sample_codec "booking_id")
        (refund_call failing find)
        body_request
        0
        (refund_view loads sample_codec failing find body_request 0)
    × IsAnswered loads 200
        ("wallet_id" ∷ "amount" ∷ "reason" ∷ [])
        (adjustment_body sample_codec)
        (adjustment_call failing find)
        body_request
        0
        (adjustment_view loads sample_codec failing find body_request 0)
views-IsAnswered_example = views-IsAnswered loads sample_codec failing find body_request 0

abbrev table : Dict WalletRow
table =
    (
      7,
      record {
        user_id = 3;
        balance = pos 125000;
        currency = text "USD";
        status = text "ACTIVE";
        created_at = 10;
        updated_at = 10;
      },
    )
    ∷ []

abbrev no_users : UserClient
no_users _ = err (other "RuntimeError")

query_views_lem_example :
    (wallet_view no_users true 7 table
      ≡ by_row (λ row. wallet_and_owner (owner_of no_users (view 7 row))) (lookup 7 table))
    × (balance_view true 7 table ≡ by_row (λ row. Query.balance row.balance) (lookup 7 table))
    × (exists_view true 7 table
        ≡ record { status = 200; content = Query.exists (is_found (lookup 7 table)) })
    × (user_wallet_view no_users true 3 table ≡ by_views no_users (of_user 3 table))
query_views_lem_example = query_views_lem no_users 7 3 table
