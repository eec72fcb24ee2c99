-- ===== src/Views/Balance.antt =====
-- The six views of apis/wallet/command_views.py with a JSON body, by what each reads of it.
use microservice_wallet_serv.Base.{String, true, false, Option, none, some, [], ◌∷◌}
use microservice_wallet_serv.Base.Text.{Text, text}
use microservice_wallet_serv.Errors.{Uuid, Result, ok, ◌>>=◌}
use microservice_wallet_serv.Errors.Exec.{Exec}
use microservice_wallet_serv.Decimal.{Decimal}
use microservice_wallet_serv.Event.Json.{Json, null, str, Codec}
use microservice_wallet_serv.Event.Serial.{parse_uuid, optional_uuid}
use microservice_wallet_serv.Event.Untyped.{subscript, get_field, decimal_of_str}
use microservice_wallet_serv.Queries.{WalletView}
use microservice_wallet_serv.Handler
use microservice_wallet_serv.Handler.{CommandService}
use microservice_wallet_serv.Views.{Response}
use microservice_wallet_serv.Views.Bodies.{BodyRequest, BodyView, as_text_or_empty, serve_body}

-- the arguments of the handler's `create_wallet`
pub record Creation : Type 0 where
  pub user_id : Uuid
  pub currency : Text
  pub wallet_id : Option Uuid

-- the arguments of the five methods on a balance; `reference` is the reference's, the booking's or
-- the admin's id, and the reason is an adjustment's
pub record Movement : Type 0 where
  pub wallet_id : Uuid
  pub amount : Decimal
  pub reason : Text
  pub reference : Option Uuid

module _ (C : Codec) where
  -- `UUID(s) if s else None`, where `s` is `body.get(key)`
  unfoldable pub optional_field : String → Json → Result (Option Uuid)
  unfolding get_field optional_uuid
  optional_field k body = do v ← get_field k null body; optional_uuid C v

  -- `UUID(body[key])`
  unfoldable pub uuid_field : String → Json → Result Uuid
  unfolding subscript parse_uuid
  uuid_field k body = do v ← subscript k body; parse_uuid C v

  -- `Decimal(str(body["amount"]))`
  unfoldable pub amount_field : Json → Result Decimal
  unfolding subscript decimal_of_str
  amount_field body = do v ← subscript "amount" body; decimal_of_str C v

  -- the user's id as `UUID` takes it
  unfoldable pub user_json : Option Text → Json
  user_json none = null
  user_json (some t) = str t

  unfoldable pub create_body : BodyView (Json × Option Uuid) Creation
  unfolding get_field optional_field parse_uuid user_json
  create_body = record {
    status = 201;
    has_not_found = false;
    required = [];
    outer = λ body. do
      currency ← get_field "currency" (str (text "USD")) body
      wallet ← optional_field "wallet_id" body
      ok (currency, wallet);
    inner = λ user outer _. do
      u ← parse_uuid C (user_json user)
      ok (record { user_id = u; currency = as_text_or_empty outer.0; wallet_id = outer.1 });
  }

  unfoldable pub read_movement : Option Uuid → Json → Result Movement
  unfolding uuid_field amount_field
  read_movement reference body = do
    id ← uuid_field "wallet_id" body
    amount ← amount_field body
    ok (record { wallet_id = id; amount = amount; reason = []; reference = reference })

  -- deposits and withdrawals read "reference_id", refunds "booking_id"
  unfoldable pub movement_body : String → BodyView (Option Uuid) Movement
  unfolding optional_field read_movement
  movement_body k = record {
    status = 200;
    has_not_found = true;
    required = "wallet_id" ∷ "amount" ∷ [];
    outer = optional_field k;
    inner = λ _ reference body. read_movement reference body;
  }

  unfoldable pub payment_body : BodyView (Unit {0}) Movement
  unfolding read_movement uuid_field
  payment_body = record {
    status = 200;
    has_not_found = true;
    required = "wallet_id" ∷ "amount" ∷ "booking_id" ∷ [];
    outer = λ _. ok tt;
    inner = λ _ _ body. do
      m ← read_movement none body
      booking ← uuid_field "booking_id" body
      ok (record m { reference = some booking });
  }

  unfoldable pub adjustment_body : BodyView (Option Uuid) Movement
  unfolding optional_field read_movement subscript
  adjustment_body = record {
    status = 200;
    has_not_found = true;
    required = "wallet_id" ∷ "amount" ∷ "reason" ∷ [];
    outer = optional_field "admin_id";
    inner = λ _ admin body. do
      m ← read_movement admin body
      reason ← subscript "reason" body
      ok (record m { reason = as_text_or_empty reason });
  }

module _ {S : Type 0} (commands : CommandService S)
    (get_wallet : Option Uuid → Exec S WalletView) where
  -- the calls of the handler's methods, on what the views have read
  unfoldable pub create_call : Creation → Exec S WalletView
  create_call a = Handler.create_wallet commands get_wallet (some a.user_id) a.currency a.wallet_id

  unfoldable pub deposit_call : Movement → Exec S WalletView
  deposit_call a = Handler.deposit commands get_wallet (some a.wallet_id) a.amount a.reference

  unfoldable pub withdraw_call : Movement → Exec S WalletView
  withdraw_call a = Handler.withdraw commands get_wallet (some a.wallet_id) a.amount a.reference

  unfoldable pub pay_call : Movement → Exec S WalletView
  pay_call a = Handler.pay_with_wallet commands get_wallet (some a.wallet_id) a.amount a.reference

  unfoldable pub refund_call : Movement → Exec S WalletView
  refund_call a = Handler.refund commands get_wallet (some a.wallet_id) a.amount a.reference

  unfoldable pub adjustment_call : Movement → Exec S WalletView
  adjustment_call a =
      Handler.adjustment commands get_wallet (some a.wallet_id) a.amount a.reason a.reference

module _ {S : Type 0} (loads : Text → Option Json) (C : Codec) (commands : CommandService S)
    (get_wallet : Option Uuid → Exec S WalletView) where
  unfoldable pub create_view : BodyRequest → S → Result Response × S
  unfolding create_call
  create_view = serve_body loads (create_body C) (create_call commands get_wallet)

  unfoldable pub deposit_view : BodyRequest → S → Result Response × S
  unfolding deposit_call
  deposit_view =
      serve_body loads (movement_body C "reference_id") (deposit_call commands get_wallet)

  unfoldable pub withdraw_view : BodyRequest → S → Result Response × S
  unfolding withdraw_call
  withdraw_view =
      serve_body loads (movement_body C "reference_id") (withdraw_call commands get_wallet)

  unfoldable pub pay_view : BodyRequest → S → Result Response × S
  unfolding pay_call
  pay_view = serve_body loads (payment_body C) (pay_call commands get_wallet)

  unfoldable pub refund_view : BodyRequest → S → Result Response × S
  unfolding refund_call
  refund_view = serve_body loads (movement_body C "booking_id") (refund_call commands get_wallet)

  unfoldable pub adjustment_view : BodyRequest → S → Result Response × S
  unfolding adjustment_call
  adjustment_view = serve_body loads (adjustment_body C) (adjustment_call commands get_wallet)
