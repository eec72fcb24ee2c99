-- ===== src/Users/Served.antt =====
-- A user that the service sends, as the query handler attaches it.
use microservice_wallet_serv.Base.{ℕ, ◌≡◌, refl, ap, ◌∙◌, none, some, [], ◌∷◌, inl, inr, ◌⊎◌}
use microservice_wallet_serv.Base.Dict.{Dict}
use microservice_wallet_serv.Base.Text.{text, same_text}
use microservice_wallet_serv.Errors.{Uuid, ok, wallet_not_found, ◌>>=◌}
use microservice_wallet_serv.Event.Json.{Json, str, obj, Fields, end, field, get, Codec}
use microservice_wallet_serv.Event.Serial.{parse_uuid, index, get_or}
use microservice_wallet_serv.Event.Untyped.{subscript, get_field, is_in}
use microservice_wallet_serv.ReadModel.{WalletRow}
use microservice_wallet_serv.Queries.{WalletView, get_wallet, or_not_found}
use microservice_wallet_serv.Queries.Owner.{UserView, UserClient, owner_of, get_wallet_with_owner}
use microservice_wallet_serv.Users.Dict.{json, id_value, UserDict, index_dict, get_or_dict}
use microservice_wallet_serv.Users.{
  Settings, Request, Answer, answered, Format, json_of, http_get, user_dict, user_url, view_of_user,
  get_user_by_id, set_header, set_default, LooseView, as_user_id, user_from_dict,
}

-- the request that get_user_by_id sends
unfoldable pub user_request : Codec → Settings → ℕ → Uuid → Request
unfolding user_url
user_request C settings timeout u = record {
  url = user_url C settings u;
  headers =
      (text "X-Internal-Key", settings.internal_api_key)
      ∷ (text "User-Agent", some (text "wallet-service/1.0"))
      ∷ [];
  timeout = timeout;
}

-- the two forms of the service's payload
unfoldable pub IsPayload : Fields → Json → Type 0
IsPayload d v = (v ≡ obj d) ⊎ ((rest : Fields) × (v ≡ obj (field "user" (obj d) rest)))

-- a dict of JSON values
unfoldable pub dict_of : Fields → UserDict
dict_of end = []
dict_of (field k v fs) = (k, json v) ∷ dict_of fs

-- a view whose id is a `UUID` object
abbrev pub loose : UserView → LooseView
loose u = record {
  user_id = id_value u.user_id;
  username = json u.username;
  first_name = json u.first_name;
  last_name = json u.last_name;
}

parse_uuid-uuid_str : (C : Codec) (u : Uuid) → parse_uuid C (str (C.uuid_str u)) ≡ ok u
unfolding parse_uuid
parse_uuid-uuid_str C u = rw (parse_uuid, C.uuid_of-uuid_str u) refl

module _ (C : Codec) (F : Format) (u : UserView) where
  view_bare : view_of_user C (obj (user_dict C F u)) ≡ ok u
  unfolding view_of_user user_dict get_field is_in subscript index get_or get
  view_bare = rw (parse_uuid-uuid_str C u.user_id) refl

  view_wrapped :
      (rest : Fields) → view_of_user C (obj (field "user" (obj (user_dict C F u)) rest)) ≡ ok u
  unfolding view_of_user user_dict get_field is_in subscript index get_or get
  view_wrapped rest = rw (parse_uuid-uuid_str C u.user_id) refl

  view_of_user_lem : (v : Json) → IsPayload (user_dict C F u) v → view_of_user C v ≡ ok u
  unfolding IsPayload
  view_of_user_lem v (inl bare) = ap (view_of_user C) bare ∙ view_bare
  view_of_user_lem v (inr (rest, wrapped)) = ap (view_of_user C) wrapped ∙ view_wrapped rest

  from_dict_id : user_from_dict C (dict_of (user_dict C F u)) ≡ ok (loose u)
  unfolding user_from_dict user_dict dict_of as_user_id index_dict get_or_dict
  from_dict_id = rw (parse_uuid-uuid_str C u.user_id) refl

-- the client's request is the one above, and its answer is what is read
get_user_by_id_lem :
    (C : Codec) (settings : Settings) (send : Request → Answer) (timeout : ℕ) (id : Uuid)
    → get_user_by_id C settings send timeout id
      ≡ (json_of (send (user_request C settings timeout id)) >>= view_of_user C)
unfolding get_user_by_id http_get user_request set_header set_default same_text
get_user_by_id_lem C settings send timeout id = refl

owner_of_lem :
    (users : UserClient) (v : WalletView) (u : UserView)
    → users v.user_id ≡ ok u
    → owner_of users v ≡ record { wallet = v; owner = some u }
unfolding owner_of
owner_of_lem users v u known = rw (owner_of, known) refl

with_owner :
    (users : UserClient) (id : Uuid) (rows : Dict WalletRow) (v : WalletView)
    → get_wallet (some id) rows ≡ ok v
    → get_wallet_with_owner users id rows ≡ ok (owner_of users v)
unfolding get_wallet_with_owner or_not_found
with_owner users id rows v found =
    ap (λ r. or_not_found (wallet_not_found (some id) none) r >>= λ w. ok (owner_of users w)) found

-- A user written by `to_dict` is what `from_dict` reads; and when the service answers the request
-- for the owner of a stored wallet with it, bare or under "user", the query handler's answer is
-- that wallet with that owner.
pub served_owner :
    (C : Codec) (F : Format) (u : UserView) (settings : Settings) (send : Request → Answer)
    (timeout : ℕ) (id : Uuid) (rows : Dict WalletRow) (v : WalletView) (reply : Json)
    → get_wallet (some id) rows ≡ ok v
    → send (user_request C settings timeout v.user_id) ≡ answered 200 (some reply)
    → IsPayload (user_dict C F u) reply
    → (user_from_dict C (dict_of (user_dict C F u)) ≡ ok (loose u))
      × (get_wallet_with_owner (get_user_by_id C settings send timeout) id rows
          ≡ ok (record { wallet = v; owner = some u }))
unfolding json_of
served_owner C F u settings send timeout id rows v reply found sent payload =
    let user : get_user_by_id C settings send timeout v.user_id ≡ ok u =
      get_user_by_id_lem C settings send timeout v.user_id
      ∙ ap (λ a. json_of a >>= view_of_user C) sent
      ∙ view_of_user_lem C F u reply payload in
    let client = get_user_by_id C settings send timeout in
    (from_dict_id C F u, with_owner client id rows v found ∙ ap ok (owner_of_lem client v u user))
