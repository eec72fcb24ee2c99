-- ===== src/Auth/Tests.antt =====
-- The middleware with a key that is fetched for one request and cached for the next.
use microservice_wallet_serv.Base.{ℕ, ◌≡◌, refl, some, none, [], ◌∷◌}
use microservice_wallet_serv.Base.Text.{Text, text, strip, strip_left, is_space, starts_with, drop}
use microservice_wallet_serv.Errors.{Result, ok}
use microservice_wallet_serv.Event.Json.{str, field, end, get}
use microservice_wallet_serv.Auth.{Decoded, payload, passed, token_of, authenticate}
use microservice_wallet_serv.Auth.Vouched.{IsVouched, serve_requests, authenticate-IsVouched}

abbrev server : ℕ → Result Text
server _ = ok (text "-----BEGIN PUBLIC KEY-----M")

abbrev library : ℕ → Text → Text → Decoded
library _ _ _ = payload (field "user_id" (str (text "3")) end)

abbrev header : Text
header = text "Bearer a.b.c"

let_in :
    (authenticate server library 60 (some header) (
      serve_requests server library
        ((10, some header) ∷ [])
        (record { key = none; fetched_at = 0 }))).0
    ≡ passed (some (str (text "3")))
unfolding serve_requests authenticate token_of strip get is_space starts_with strip_left drop
let_in = refl

authenticate-IsVouched_example : IsVouched server library 60 (some header) (str (text "3"))
authenticate-IsVouched_example =
    authenticate-IsVouched server library ((10, some header) ∷ []) 60 (some header) (str (text "3"))
      let_in
