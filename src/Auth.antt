-- ===== src/Auth.antt =====
-- wallet_service/auth/jwt_verifier.py and wallet_service/middleware/auth.py. The response of the
-- server of the key (its text, or the exception of httpx) and `jwt.decode` are parameters, the first
-- by the time of the call. Times are seconds.
pub mod Keys
pub mod Vouched
mod Tests
use microservice_wallet_serv.Base.{
  ℕ, ◌-◌, String, Bool, true, false, not, Option, none, some, ltb, if◌then◌else◌,
}
use microservice_wallet_serv.Base.Text.{Text, text, is_truthy, strip, starts_with, count, drop}
use microservice_wallet_serv.Errors.{PyError, Result, ok, err, key_error}
use microservice_wallet_serv.Event.Json.{Json, Fields, get}

-- a value, an AuthenticationFailed with its text, or another exception
pub data Checked (A : Type 0) : Type 0 where
  granted : A → Checked A
  denied : String → Checked A
  raised : PyError → Checked A

-- what `jwt.decode` does: a payload, ExpiredSignatureError, InvalidTokenError, or another exception
pub data Decoded : Type 0 where
  payload : Fields → Decoded
  expired : Decoded
  invalid : Decoded
  broken : PyError → Decoded

-- the class attributes `_public_key_cache` and `_last_fetch_time`
pub record KeyCache : Type 0 where
  pub key : Option Text
  pub fetched_at : ℕ

-- `_cache_ttl`
abbrev pub cache_ttl : ℕ
cache_ttl = 300

abbrev pub key_header : Text
key_header = text "-----BEGIN PUBLIC KEY-----"

module _ (fetch : ℕ → Result Text) where
  -- `_fetch_public_key`, by the text of the response
  unfoldable pub check_key : Result Text → Checked Text
  check_key (err e) = raised e
  check_key (ok body) =
      if starts_with (strip body) key_header
      then granted (strip body)
      else denied "Invalid public key format"

  -- the assignments after the fetch
  unfoldable pub store_key : ℕ → KeyCache → Checked Text → Checked Text × KeyCache
  store_key now cache (granted k) = (granted k, record { key = some k; fetched_at = now })
  store_key now cache (denied message) = (denied message, cache)
  store_key now cache (raised e) = (raised e, cache)

  -- `cls._public_key_cache and (now - cls._last_fetch_time) < cls._cache_ttl`
  unfoldable pub is_fresh : ℕ → KeyCache → Text → Bool
  is_fresh now cache k = if is_truthy k then ltb (now - cache.fetched_at) cache_ttl else false

  unfoldable pub get_public_key : ℕ → KeyCache → Checked Text × KeyCache
  unfolding check_key store_key is_fresh
  get_public_key now cache =
      let fetched = store_key now cache (check_key (fetch now)) in
      elim cache.key [
        | none ↦ fetched
        | some k ↦ if is_fresh now cache k then (granted k, cache) else fetched
      ]

module _ (fetch : ℕ → Result Text) (decode : ℕ → Text → Text → Decoded) where
  -- the `except` clauses around `jwt.decode`
  unfoldable pub decoded : Decoded → Checked Fields
  decoded (payload fs) = granted fs
  decoded expired = denied "Token expired"
  decoded invalid = denied "Invalid token"
  decoded (broken e) = raised e

  unfoldable pub decode_with : ℕ → Text → Checked Text → Checked Fields
  unfolding decoded
  decode_with now token (granted key) = decoded (decode now token key)
  decode_with now token (denied message) = denied message
  decode_with now token (raised e) = raised e

  -- `verify_token_async`
  unfoldable pub verify_token : ℕ → Text → KeyCache → Checked Fields × KeyCache
  unfolding get_public_key decode_with count
  verify_token now token cache =
      let (key, cache') = get_public_key fetch now cache in
      if ltb (count b'.' token) 2
      then (denied "Invalid JWT format", cache)
      else (decode_with now token key, cache')

-- what the middleware does with a request: it passes it on with a user id, answers with a status, or
-- lets an exception out
pub data Passed : Type 0 where
  passed : Option Json → Passed
  answered : ℕ → String → Passed
  escaped : PyError → Passed

-- `payload["user_id"]`, or the `except` clause
unfoldable pub pass_user : Checked Fields → Passed
pass_user (granted fs) = elim (get "user_id" fs) [
  | some u ↦ passed (some u)
  | none ↦ escaped (key_error "user_id")
]
pass_user (denied message) = answered 401 message
pass_user (raised e) = escaped e

abbrev pub bearer : Text
bearer = text "Bearer "

-- `auth_header.split(" ", 1)[1].strip()` of a header that starts with "Bearer "
unfoldable pub token_of : Text → Text
token_of header = strip (drop 7 header)

module _ (fetch : ℕ → Result Text) (decode : ℕ → Text → Text → Decoded) where
  -- a header that is not empty
  unfoldable pub check_header : ℕ → Text → KeyCache → Passed × KeyCache
  unfolding verify_token pass_user token_of starts_with
  check_header now header cache =
      let (verified, cache') = verify_token fetch decode now (token_of header) cache in
      if not (starts_with header bearer)
      then (answered 401 "Authorization header must be 'Bearer <token>'", cache)
      else if not (is_truthy (token_of header))
      then (answered 401 "Token is empty", cache)
      else (pass_user verified, cache')

  -- `JWTAuthenticationMiddleware.__call__`, up to `get_response`
  unfoldable pub authenticate : ℕ → Option Text → KeyCache → Passed × KeyCache
  unfolding check_header
  authenticate now none cache = (passed none, cache)
  authenticate now (some header) cache =
      let checked = check_header now header cache in
      if not (is_truthy header) then (passed none, cache) else checked
