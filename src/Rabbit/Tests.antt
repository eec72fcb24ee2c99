-- ===== src/Rabbit/Tests.antt =====
-- The consumer's theorems at a payment that is delivered twice, and a message without a header.
use microservice_wallet_serv.Base.{
  ℕ, ◌≡◌, refl, true, false, none, some, List, [], ◌∷◌, arith, if◌then◌else◌,
}
use microservice_wallet_serv.Base.Int.{pos, negsuc}
use microservice_wallet_serv.Base.Text.{Text, text, same_text}
use microservice_wallet_serv.Base.Dict.{Dict}
use microservice_wallet_serv.Errors.{Result, ok, err, value_error, wallet_domain}
use microservice_wallet_serv.Errors.Exec.{Exec, raise, pure}
use microservice_wallet_serv.Decimal.{Decimal, finite}
use microservice_wallet_serv.Event.Json.{Json, str, obj, field, end}
use microservice_wallet_serv.Event.Samples.{sample_codec, decimal_code}
use microservice_wallet_serv.ReadModel.{WalletRow}
use microservice_wallet_serv.Queries
use microservice_wallet_serv.Queries.{WalletView, by_id}
use microservice_wallet_serv.Queries.Owner.{UserClient}
use microservice_wallet_serv.Errors.{other}
use microservice_wallet_serv.Handler
use microservice_wallet_serv.Handler.{CommandService}
use microservice_wallet_serv.Dedup.{is_duplicate, is_tracked}
use microservice_wallet_serv.Dedup.Once.{first_of_each, is_seen, process_all}
use microservice_wallet_serv.Dedup.Samples.{sample_cache}
use microservice_wallet_serv.Rabbit.{AclFields, request_payment, request_refund}
use microservice_wallet_serv.Rabbit.Booking.{Context, default_context, dispatch_wallet_command}
use microservice_wallet_serv.Rabbit.Consumer.{Delivery, ack, id_of, key_prefix, callback, consume}
use microservice_wallet_serv.Rabbit.Settled.{
  callback_settles, consume_once, settlement, effect, tags, delivery_tags,
}
use microservice_wallet_serv.Rabbit.Effects.{dispatch_effect, on_wallet}

abbrev wallet_row : WalletRow
wallet_row = record {
  user_id = 3;
  balance = pos 500000;
  currency = text "USD";
  status = text "ACTIVE";
  created_at = 10;
  updated_at = 10;
}

abbrev rows : Dict WalletRow
rows = (7, wallet_row) ∷ []

-- a service that writes a row for each payment, and refuses refunds
abbrev service : CommandService (Dict WalletRow)
service = record {
  create_wallet = λ _ _ _. raise (value_error "user_id is required");
  deposit = λ _ _ _. pure tt;
  withdraw = λ _ _ _. pure tt;
  pay_with_wallet = λ _ _ _ s. (ok tt, (8, wallet_row) ∷ s);
  refund = λ _ _ _. raise (wallet_domain "Wallet is closed");
  adjustment = λ _ _ _ _. pure tt;
  suspend_wallet = λ _. pure tt;
  activate_wallet = λ _. pure tt;
  close_wallet = λ _. pure tt;
}

abbrev users : UserClient
users _ = err (other "RuntimeError")

abbrev find : Exec (Dict WalletRow) WalletView
find s = (by_id 7 s, s)

abbrev ctx : Context (Dict WalletRow)
ctx = default_context service (λ _. find) users (λ s. s)

abbrev price : Decimal
price = finite false 1250 (negsuc 1)

-- the one body that parses
abbrev loads : Text → Result Json
loads [] = err (value_error "JSONDecodeError")
loads (_ ∷ _) = ok (
    obj (
      field "booking_id" (str (5 ∷ []))
        (field "amount" (str (decimal_code price)) (field "client_id" (str (3 ∷ [])) end))))

abbrev message : ℕ → ℕ → Delivery
message time tag = record {
  time = time;
  delivery_tag = tag;
  message_id = some (text "m1");
  headers = some (field "command_name" (str (text "RequestPaymentCommand")) end);
  body = text "{}";
}

abbrev bare : Delivery
bare = record { time = 30; delivery_tag = 3; message_id = none; headers = none; body = text "{}" }

callback_settles_example :
    callback sample_cache loads sample_codec (λ _. true) ctx (message 10 1) ([], rows) ≡ (
      let (duplicate, c') = is_duplicate sample_cache key_prefix 10 (id_of (message 10 1)) [] in
      if duplicate then (ack 1, c', rows) else (
        settlement sample_cache loads sample_codec (λ _. true) ctx (message 10 1),
        c',
        effect sample_cache loads sample_codec (λ _. true) ctx (message 10 1) rows,
      ))
callback_settles_example =
    callback_settles sample_cache loads sample_codec (λ _. true) ctx (message 10 1) [] rows

abbrev deliveries : List Delivery
deliveries = message 10 1 ∷ message 20 2 ∷ bare ∷ []

consume_once_example :
    (tags (consume sample_cache loads sample_codec (λ _. true) ctx deliveries ([], rows)).0
      ≡ delivery_tags deliveries)
    × ((consume sample_cache loads sample_codec (λ _. true) ctx deliveries ([], rows)).2
        ≡ process_all
            (effect sample_cache loads sample_codec (λ _. true) ctx)
            (first_of_each id_of [] deliveries)
            rows)
consume_once_example =
    consume_once sample_cache loads sample_codec (λ _. true) ctx 10 deliveries [] rows
      ((omega arith, omega arith), ((omega arith, omega arith), ((omega arith, omega arith), tt)))
      (refl, (refl, (refl, tt)))

-- the second delivery and the bare one do nothing
once : first_of_each id_of [] deliveries ≡ message 10 1 ∷ bare ∷ []
unfolding first_of_each is_tracked is_seen id_of same_text
once = refl

abbrev request : AclFields
request = record {
  correlation_id = none;
  timestamp = 10;
  booking_id = 5;
  amount = price;
  client_id = 3;
}

dispatch_effect_example :
    ((dispatch_wallet_command sample_codec ctx (request_payment request) rows).1
      ≡ on_wallet
          (Queries.get_wallet_by_user (some 3) rows)
          (λ v.
            (Handler.pay_with_wallet service (λ _. find) (some v.wallet_id) price (some 5) rows).1)
          rows)
    × ((dispatch_wallet_command sample_codec ctx (request_refund request) rows).1
        ≡ on_wallet
            (Queries.get_wallet_by_user (some 3) rows)
            (λ v. (Handler.refund service (λ _. find) (some v.wallet_id) price (some 5) rows).1)
            rows)
dispatch_effect_example =
    dispatch_effect sample_codec service (λ _. find) users (λ s. s) request rows
