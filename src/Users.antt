-- ===== src/Users.antt =====
-- The client of the service that knows the users: application/external/user_view.py,
-- services/http_client.py and services/user_api_client.py beside it. What the service answers to a
-- request is a parameter, and the client's log of a failure has no counterpart.
pub mod Dict
pub mod Served
mod Tests
use microservice_wallet_serv.Base.{
  String, ℕ, ◌≡◌, Bool, true, false, not, ◌&&◌, ◌||◌, Option, none, some, List, [], ◌∷◌, ◌++◌, inl,
  inr, ◌⊎◌, leb, ltb, if◌then◌else◌,
}
use microservice_wallet_serv.Base.Text.{Text, text, same_text, is_truthy, strip, take, drop, rstrip}
use microservice_wallet_serv.Errors.{
  Uuid, Result, ok, err, value_error, key_error, runtime_error, ◌>>=◌, ◌>>◌, raise_if,
}
use microservice_wallet_serv.Event.Json.{Json, null, str, Fields, end, field, get, Codec}
use microservice_wallet_serv.Event.Serial.{parse_uuid, index, get_or}
use microservice_wallet_serv.Event.Untyped.{subscript, get_field, is_in}
use microservice_wallet_serv.Users.Dict.{Value, json, id_value, UserDict, index_dict, get_or_dict}
use microservice_wallet_serv.Queries.Owner.{UserView, UserClient}

-- `settings`, where the key may be missing
pub record Settings : Type 0 where
  pub auth_service_url : Text
  pub internal_api_key : Option Text

abbrev pub Header : Type 0
Header = Text × Option Text

pub record Request : Type 0 where
  pub url : Text
  pub headers : List Header
  pub timeout : ℕ

-- no response, or its status and its body where that is JSON
pub data Answer : Type 0 where
  no_answer : Answer
  answered : ℕ → Option Json → Answer

-- headers[k] = v
unfoldable pub set_header : Text → Option Text → List Header → List Header
set_header k v [] = (k, v) ∷ []
set_header k v ((j, w) ∷ hs) =
    let rest = set_header k v hs in if same_text j k then (j, v) ∷ hs else (j, w) ∷ rest

-- headers.setdefault(k, v)
unfoldable pub set_default : Text → Option Text → List Header → List Header
set_default k v [] = (k, v) ∷ []
set_default k v ((j, w) ∷ hs) =
    let rest = set_default k v hs in if same_text j k then (j, w) ∷ hs else (j, w) ∷ rest

-- `raise_for_status` and `json`, with `except RequestException`
unfoldable pub json_of : Answer → Result Json
json_of no_answer = err (runtime_error "Failed to call")
json_of (answered status body) =
    if leb 400 status && ltb status 600
    then err (runtime_error "Failed to call")
    else (elim body [ none ↦ err (runtime_error "Failed to call") | some v ↦ ok v ])

-- `HTTPClient.get` of a client with that timeout
unfoldable pub http_get : Settings → (Request → Answer) → ℕ → Text → List Header → Result Json
unfolding set_header set_default json_of
http_get settings send timeout url headers =
    let keyed = set_header (text "X-Internal-Key") settings.internal_api_key headers in
    json_of (
      send (record {
        url = url;
        headers = set_default (text "User-Agent") (some (text "wallet-service/1.0")) keyed;
        timeout = timeout;
      }))

-- `f"{v}"` of a value: of a text, the text
pub record Format : Type 0 where
  pub format : Json → Text
  pub format_str : (s : Text) → format (str s) ≡ s

-- the `UserView` that `from_dict` makes, which checks the type of no field
pub record LooseView : Type 0 where
  pub user_id : Value
  pub username : Value
  pub first_name : Value
  pub last_name : Value

module _ (C : Codec) where
  open C use {uuid_str}

  -- `full_name` of `to_dict`
  unfoldable pub full_name : Format → UserView → Json
  unfolding strip
  full_name F u =
      let name = strip (F.format u.first_name ++ text " " ++ F.format u.last_name) in
      if is_truthy name then str name else null

  -- `UserView.to_dict`
  unfoldable pub user_dict : Format → UserView → Fields
  unfolding full_name
  user_dict F u = field "user_id" (str (uuid_str u.user_id)) (
      field "username" u.username (
        field "first_name" u.first_name
          (field "last_name" u.last_name (field "full_name" (full_name F u) end))))

  -- `if isinstance(user_id, str): user_id = UUID(user_id)`
  unfoldable pub as_user_id : Value → Result Value
  unfolding parse_uuid
  as_user_id (json (str s)) = do u ← parse_uuid C (str s); ok (id_value u)
  as_user_id v = ok v

  -- `UserView.from_dict`
  unfoldable pub user_from_dict : UserDict → Result LooseView
  unfolding as_user_id index_dict get_or_dict
  user_from_dict data_ = do
    raw ← index_dict "user_id" data_
    id ← as_user_id raw
    name ← index_dict "username" data_
    ok (record {
      user_id = id;
      username = name;
      first_name = get_or_dict "first_name" (json (str [])) data_;
      last_name = get_or_dict "last_name" (json (str [])) data_;
    })

  -- `UserView.from_user_id`
  unfoldable pub from_user_id : Uuid → UserView
  unfolding take drop
  from_user_id u =
      let s = uuid_str u in
      record {
        user_id = u;
        username = str (text "user_" ++ take 8 s);
        first_name = str (text "User" ++ take 4 s);
        last_name = str (text "Test" ++ take 4 (drop 4 s));
      }

  -- the URL of `get_user_by_id`
  unfoldable pub user_url : Settings → Uuid → Text
  unfolding rstrip
  user_url settings u =
      rstrip b'/' settings.auth_service_url ++ text "/users/users/" ++ uuid_str u ++ text "/"

  -- a view from what the service answered
  unfoldable pub view_of_user : Json → Result UserView
  unfolding parse_uuid subscript get_field is_in
  view_of_user data_ = do
    user ← get_field "user" data_ data_
    has_id ← is_in "user_id" user
    raise_if (not has_id) (value_error "Invalid user payload received")
    has_name ← is_in "username" user
    raise_if (not has_name) (value_error "Invalid user payload received")
    raw ← subscript "user_id" user
    id ← parse_uuid C raw
    name ← subscript "username" user
    first ← get_field "first_name" (str []) user
    last ← get_field "last_name" (str []) user
    ok (record { user_id = id; username = name; first_name = first; last_name = last })

  -- `UserAPIClient.get_user_by_id`
  unfoldable pub get_user_by_id : Settings → (Request → Answer) → ℕ → UserClient
  unfolding http_get user_url view_of_user
  get_user_by_id settings send timeout u = do
    data_ ← http_get settings send timeout (user_url settings u) []
    view_of_user data_
