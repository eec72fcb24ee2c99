-- ===== src/Users/Tests.antt =====
-- A service that knows one user, and the owner of that user's wallet.
use microservice_wallet_serv.Base.{◌≡◌, refl, none, some, [], ◌∷◌, inr, ◌++◌, if◌then◌else◌}
use microservice_wallet_serv.Base.Int.{pos}
use microservice_wallet_serv.Base.Dict.{Dict, lookup}
use microservice_wallet_serv.Base.Text.{
  Text, text, same_text, strip, strip_left, take, rstrip, strip_left_of,
}
use microservice_wallet_serv.Errors.{ok, err, runtime_error, value_error}
use microservice_wallet_serv.Event.Json.{Json, str, num, obj, end, field, get}
use microservice_wallet_serv.Event.Untyped.{get_field, is_in}
use microservice_wallet_serv.Event.Samples.{sample_codec}
use microservice_wallet_serv.ReadModel.{WalletRow}
use microservice_wallet_serv.Queries.{view, get_wallet, by_id, given, or_not_found}
use microservice_wallet_serv.Queries.Owner.{UserView, get_wallet_with_owner}
use microservice_wallet_serv.Users.{
  Settings, Request, Answer, answered, Format, http_get, json_of, user_dict, full_name,
  from_user_id, user_url, view_of_user, get_user_by_id, user_from_dict,
}
use microservice_wallet_serv.Users.Served.{dict_of, loose, user_request, IsPayload, served_owner}

abbrev plain_format : Json → Text
plain_format (str s) = s
plain_format _ = text "None"

abbrev plain : Format
plain = record { format = plain_format; format_str = λ s. refl }

abbrev ada : UserView
ada = record {
  user_id = 3;
  username = str (text "ada");
  first_name = str (text "Ada");
  last_name = str (text "");
}

abbrev local : Settings
local = record {
  auth_service_url = text "http://127.0.0.1:8000/zedvye_one/";
  internal_api_key = some (text "key");
}

full_name_stripped : full_name sample_codec plain ada ≡ str (text "Ada")
unfolding full_name strip strip_left
full_name_stripped = refl

url_of_ada :
    user_url sample_codec local 3
    ≡ text "http://127.0.0.1:8000/zedvye_one/users/users/" ++ (3 ∷ []) ++ text "/"
unfolding user_url rstrip strip_left_of
url_of_ada = refl

placeholder : (from_user_id sample_codec 3).username ≡ str (text "user_" ++ (3 ∷ []))
unfolding from_user_id take
placeholder = refl

unfoldable service : Request → Answer
unfolding same_text user_url user_dict
service request =
    if same_text request.url (user_url sample_codec local 3)
    then answered 200 (some (obj (field "user" (obj (user_dict sample_codec plain ada)) end)))
    else answered 404 none

missing : get_user_by_id sample_codec local service 10 4 ≡ err (runtime_error "Failed to call")
unfolding get_user_by_id http_get json_of service same_text user_url rstrip strip_left_of
missing = refl

no_name :
    view_of_user sample_codec (obj (field "user_id" (num 3) end))
    ≡ err (value_error "Invalid user payload received")
unfolding view_of_user get_field is_in get
no_name = refl

abbrev row : WalletRow
row = record {
  user_id = 3;
  balance = pos 125000;
  currency = text "USD";
  status = text "ACTIVE";
  created_at = 10;
  updated_at = 10;
}

abbrev rows : Dict WalletRow
rows = (7, row) ∷ []

served_owner_example :
    (user_from_dict sample_codec (dict_of (user_dict sample_codec plain ada)) ≡ ok (loose ada))
    × (get_wallet_with_owner (get_user_by_id sample_codec local service 10) 7 rows
        ≡ ok (record { wallet = view 7 row; owner = some ada }))
unfolding service user_request user_url rstrip strip_left_of same_text IsPayload get_wallet by_id
    given or_not_found lookup view
served_owner_example =
    served_owner sample_codec plain ada local service 10 7 rows (view 7 row)
      (obj (field "user" (obj (user_dict sample_codec plain ada)) end)) refl refl (inr (end, refl))
