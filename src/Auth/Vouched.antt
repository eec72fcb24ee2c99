-- ===== src/Auth/Vouched.antt =====
-- Who passes the middleware of wallet_service/middleware/auth.py with a user id.
use microservice_wallet_serv.Base.{
  ℕ, ◌≡◌, refl, sym, ap, ◌∙◌, inl, inr, true, Option, none, some, Option-cases, List, [], ◌∷◌,
  Bool-cases, ltb,
}
use microservice_wallet_serv.Base.Text.{Text, is_truthy, starts_with, count}
use microservice_wallet_serv.Errors.{Result, key_error}
use microservice_wallet_serv.Event.Json.{Json, Fields, get}
use microservice_wallet_serv.Auth.{
  Checked, granted, denied, raised, Decoded, payload, expired, invalid, broken, KeyCache,
  get_public_key, decoded, decode_with, verify_token, Passed, passed, escaped, pass_user, bearer,
  token_of, check_header, authenticate,
}
use microservice_wallet_serv.Auth.Keys.{IsCurrent, IsFetched, get_public_key_lem}

-- what the middleware knows of a request that it passes on for a user
pub record IsVouched (fetch : ℕ → Result Text) (decode : ℕ → Text → Text → Decoded) (now : ℕ)
    (header : Option Text) (u : Json) : Type 0 where
  pub sent : Text
  pub has_header : header ≡ some sent
  pub is_bearer : starts_with sent bearer ≡ true
  pub key : Text
  pub current : IsCurrent fetch now key
  pub claims : Fields
  pub verified : decode now (token_of sent) key ≡ payload claims
  pub has_user : get "user_id" claims ≡ some u

module _ (fetch : ℕ → Result Text) (decode : ℕ → Text → Text → Decoded) where
  decoded_payload :
      (d : Decoded) (fs : Fields) → decoded fetch decode d ≡ granted fs → d ≡ payload fs
  unfolding decoded
  decoded_payload (payload gs) fs h = let same : gs ≡ fs = cc in ap payload same
  decoded_payload expired fs h = absurd cc
  decoded_payload invalid fs h = absurd cc
  decoded_payload (broken e) fs h = absurd cc

  -- the payload that is granted was decoded with a current key
  verify_token_lem :
      (now : ℕ) (token : Text) (cache : KeyCache)
      → IsFetched fetch cache
      → ((fs : Fields)
          → (verify_token fetch decode now token cache).0 ≡ granted fs
          → (k : Text) × IsCurrent fetch now k × (decode now token k ≡ payload fs))
        × IsFetched fetch (verify_token fetch decode now token cache).1
  unfolding verify_token decode_with
  verify_token_lem now token cache fetched = elim (Bool-cases (ltb (count b'.' token) 2)) [
    | inl short ↦ rw short ((λ fs h. absurd cc), fetched)
    | inr long ↦
        let (current, kept) = get_public_key_lem fetch now cache fetched in
        rw long (decoded_key (get_public_key fetch now cache).0 current, kept)
  ]
    where
      decoded_key :
          (c : Checked Text)
          → ((k : Text) → c ≡ granted k → IsCurrent fetch now k)
          → (fs : Fields) → decode_with fetch decode now token c ≡ granted fs
          → (k : Text) × IsCurrent fetch now k × (decode now token k ≡ payload fs)
      decoded_key (granted k) current fs h =
          (k, current k refl, decoded_payload (decode now token k) fs h)
      decoded_key (denied message) current fs h = absurd cc
      decoded_key (raised e) current fs h = absurd cc

  passed_user :
      (c : Checked Fields) (u : Json)
      → pass_user c ≡ passed (some u)
      → (fs : Fields) × (c ≡ granted fs) × (get "user_id" fs ≡ some u)
  unfolding pass_user
  passed_user (granted fs) u h = elim (Option-cases (get "user_id" fs)) [
    | inl missing ↦ absurd (escapes (sym (ap pick missing) ∙ h))
    | inr (v, found) ↦
        let same : passed (some v) ≡ passed (some u) = sym (ap pick found) ∙ h in
        (fs, refl, found ∙ ap some cc)
  ]
    where
      pick : Option Json → Passed
      pick o = elim o [ some v ↦ passed (some v) | none ↦ escaped (key_error "user_id") ]

      escapes : escaped (key_error "user_id") ≡ passed (some u) → ⊥
      escapes e = cc
  passed_user (denied message) u h = absurd cc
  passed_user (raised e) u h = absurd cc

  check_header_lem :
      (now : ℕ) (header : Text) (cache : KeyCache)
      → IsFetched fetch cache
      → ((u : Json)
          → (check_header fetch decode now header cache).0 ≡ passed (some u)
          → IsVouched fetch decode now (some header) u)
        × IsFetched fetch (check_header fetch decode now header cache).1
  unfolding check_header
  check_header_lem now header cache fetched = elim (Bool-cases (starts_with header bearer)) [
    | inr other ↦ rw other ((λ u h. absurd cc), fetched)
    | inl is_bearer ↦ elim (Bool-cases (is_truthy (token_of header))) [
      | inr empty ↦ rw (is_bearer, empty) ((λ u h. absurd cc), fetched)
      | inl full ↦
          let (current, kept) = verify_token_lem now (token_of header) cache fetched in
          rw (is_bearer, full)
            (
              (λ u h.
                  let (fs, g, has_user) =
                    passed_user (verify_token fetch decode now (token_of header) cache).0 u h in
                  let (k, recent, verified) = current fs g in
                  record {
                    sent = header;
                    has_header = refl;
                    is_bearer = is_bearer;
                    key = k;
                    current = recent;
                    claims = fs;
                    verified = verified;
                    has_user = has_user;
                  }),
              kept,
            )
    ]
  ]

  authenticate_lem :
      (now : ℕ) (header : Option Text) (cache : KeyCache)
      → IsFetched fetch cache
      → ((u : Json)
          → (authenticate fetch decode now header cache).0 ≡ passed (some u)
          → IsVouched fetch decode now header u)
        × IsFetched fetch (authenticate fetch decode now header cache).1
  unfolding authenticate
  authenticate_lem now none cache fetched = ((λ u h. absurd cc), fetched)
  authenticate_lem now (some header) cache fetched = elim (Bool-cases (is_truthy header)) [
    | inr empty ↦ rw empty ((λ u h. absurd cc), fetched)
    | inl full ↦ rw full (check_header_lem now header cache fetched)
  ]

  -- the cache after some requests, each with its time and its header
  unfoldable pub serve_requests : List (ℕ × Option Text) → KeyCache → KeyCache
  serve_requests [] cache = cache
  serve_requests ((now, header) ∷ requests) cache =
      serve_requests requests (authenticate fetch decode now header cache).1

  served-IsFetched :
      (requests : List (ℕ × Option Text)) (cache : KeyCache)
      → IsFetched fetch cache
      → IsFetched fetch (serve_requests requests cache)
  unfolding serve_requests
  served-IsFetched [] cache fetched = fetched
  served-IsFetched ((now, header) ∷ requests) cache fetched =
      served-IsFetched requests (authenticate fetch decode now header cache).1
        (authenticate_lem now header cache fetched).1

  -- After any requests since the process has started, a request that the middleware passes on with a
  -- user id carries a bearer token that `jwt.decode` has accepted, at that moment, with a key that
  -- the key server gave less than five minutes before, and the id is the token's claim `user_id`.
  pub authenticate-IsVouched :
      (requests : List (ℕ × Option Text)) (now : ℕ) (header : Option Text) (u : Json)
      → (authenticate fetch decode now header
          (serve_requests requests (record { key = none; fetched_at = 0 }))).0
        ≡ passed (some u)
      → IsVouched fetch decode now header u
  unfolding IsFetched
  authenticate-IsVouched requests now header u h =
      (authenticate_lem now header (serve_requests requests (record { key = none; fetched_at = 0 }))
          (served-IsFetched requests (record { key = none; fetched_at = 0 }) (λ k e. absurd cc))).0
        u h
