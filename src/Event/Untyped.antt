-- ===== src/Event/Untyped.antt =====
-- Python's operations on what `json.loads` gave, which need not be a dict, and the conversions that
-- messaging/rabbitMQ/dispatchers/booking_acl.py and apis/wallet/command_views.py apply to it.
use microservice_wallet_serv.Base.{String, ◌≡◌, refl, Bool, true, false, none, some, [], ◌∷◌, List}
use microservice_wallet_serv.Base.Int.{pos}
use microservice_wallet_serv.Base.Text.{text, has_substring}
use microservice_wallet_serv.Errors.{Result, ok, err, type_error, invalid_operation, other}
use microservice_wallet_serv.Decimal.{Decimal, finite}
use microservice_wallet_serv.Event.Json.{Json, null, str, num, obj, Fields, get, Codec}
use microservice_wallet_serv.Event.Serial.{index, get_or}

-- payload[key]
unfoldable pub subscript : String → Json → Result Json
unfolding index
subscript k (obj fs) = index k fs
subscript k null = err type_error
subscript k (str s) = err type_error
subscript k (num n) = err type_error

-- body.get(key, default)
unfoldable pub get_field : String → Json → Json → Result Json
unfolding get_or
get_field k d (obj fs) = ok (get_or k d fs)
get_field k d _ = err (other "AttributeError")

-- Decimal(str(v))
unfoldable pub decimal_of_str : Codec → Json → Result Decimal
decimal_of_str C (str s) = elim (C.decimal_of s) [ some d ↦ ok d | none ↦ err invalid_operation ]
decimal_of_str C (num n) = ok (finite false n (pos 0))
decimal_of_str C null = err invalid_operation
decimal_of_str C (obj fs) = err invalid_operation

-- field in body: a key of a dict, a part of a text, and no such test of a number or None
unfoldable pub is_in : String → Json → Result Bool
unfolding get has_substring
is_in k (obj fs) = elim (get k fs) [ none ↦ ok false | some _ ↦ ok true ]
is_in k (str s) = ok (has_substring (text k) s)
is_in k null = err type_error
is_in k (num n) = err type_error

-- all(field in body for field in required)
unfoldable pub all_in : List String → Json → Result Bool
unfolding is_in
all_in [] body = ok true
all_in (k ∷ ks) body =
    let rest = all_in ks body in
    elim (is_in k body) [ err e ↦ err e | ok false ↦ ok false | ok true ↦ rest ]

pub decimal_of_str-decimal_str :
    (C : Codec) (a : Decimal) → decimal_of_str C (str (C.decimal_str a)) ≡ ok a
unfolding decimal_of_str
decimal_of_str-decimal_str C a = rw (decimal_of_str, C.decimal_of-decimal_str a) refl

module _ (k : String) (fs : Fields) {v : Json} (found : get k fs ≡ some v) where
  pub subscript_found : subscript k (obj fs) ≡ ok v
  unfolding subscript index
  subscript_found = rw (index, found) refl

  pub get_or_found : (d : Json) → get_or k d fs ≡ v
  unfolding get_or
  get_or_found d = rw (get_or, found) refl

  pub is_in_found : is_in k (obj fs) ≡ ok true
  unfolding is_in
  is_in_found = rw (is_in, found) refl

  pub all_in_found : (ks : List String) → all_in (k ∷ ks) (obj fs) ≡ all_in ks (obj fs)
  unfolding all_in
  all_in_found ks = rw (all_in, is_in_found) refl

pub all_in-nil : (body : Json) → all_in [] body ≡ ok true
unfolding all_in
all_in-nil body = refl
