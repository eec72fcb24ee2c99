-- ===== src/Views/Answered.antt =====
-- Which requests reach the handler's method from the views with a JSON body, and what is answered.
use mathlib.Core.Path.{subst}
use microservice_wallet_serv.Base.{
  ℕ, String, List, ◌∷◌, ◌≡◌, refl, sym, ap, ◌⊎◌, inl, inr, Bool, true, false, Option, none, some,
  [], arith, Bool-cases,
}
use microservice_wallet_serv.Base.Text.{Text}
use microservice_wallet_serv.Errors.{
  Uuid, PyError, Result, ok, err, is_wallet_domain_error, is_wallet_not_found, wallet_not_found,
}
use microservice_wallet_serv.Errors.Exec.{Exec}
use microservice_wallet_serv.Decimal.{nan}
use microservice_wallet_serv.Event.Json.{Json, Codec}
use microservice_wallet_serv.Event.Untyped.{all_in}
use microservice_wallet_serv.Queries.{WalletView}
use microservice_wallet_serv.Handler.{CommandService}
use microservice_wallet_serv.Handler.Wrapping.{IsSafe, IsDomainOnly, methods-IsSafe}
use microservice_wallet_serv.Views.{Response, domain_error, wallet, is_authenticated}
use microservice_wallet_serv.Views.Balance.{
  create_body, movement_body, payment_body, adjustment_body, create_call, deposit_call,
  withdraw_call, pay_call, refund_call, adjustment_call, create_view, deposit_view, withdraw_view,
  pay_view, refund_view, adjustment_view,
}
use microservice_wallet_serv.Views.Bodies.{
  BodyRequest, BodyView, answer, body_failure, body_respond, answer_read, answer_outer,
  answer_fields, answer_body, serve_body,
}

-- the answer to a request that reached the handler's method, by the method's outcome
unfoldable pub outcome : ℕ → Result WalletView → Response
outcome status (ok v) = record { status = status; content = wallet v }
outcome status (err e) = record { status = 400; content = domain_error e }

-- A POST of a user with a JSON body that has the required fields, and of which the view reads `a`.
pub record Reads {O A : Type 0} (loads : Text → Option Json) (required : List String)
    (view : BodyView O A) (r : BodyRequest) (a : A) : Type 0 where
  pub posted : r.is_post ≡ true
  pub authenticated : is_authenticated r.request ≡ true
  pub json : Json
  pub loaded : loads r.body ≡ some json
  pub complete : all_in required json ≡ ok true
  pub before : O
  pub read_before : view.outer json ≡ ok before
  pub read : view.inner r.user_id before json ≡ ok a

-- nothing changed, and an exception or one of four statuses
unfoldable pub IsRefused : {S : Type 0} → S → Result Response × S → Type 0
IsRefused s (err e, s') = s' ≡ s
IsRefused s (ok response, s') =
    (s' ≡ s)
    × ((response.status ≡ 400)
        ⊎ (response.status ≡ 401)
        ⊎ (response.status ≡ 405)
        ⊎ (response.status ≡ 500))

not_found_domain : (e : PyError) → is_wallet_domain_error e ≡ false → is_wallet_not_found e ≡ false
unfolding is_wallet_domain_error is_wallet_not_found
not_found_domain (wallet_not_found _ _) h = cc
not_found_domain _ h = refl

body_failure-IsRefused :
    {S : Type 0} (s : S) (has_not_found : Bool) (e : PyError)
    → IsRefused s (ok (body_failure has_not_found e), s)
unfolding IsRefused body_failure
body_failure-IsRefused s has_not_found e = (refl, helper)
  where
    helper :
        ((body_failure has_not_found e).status ≡ 400)
        ⊎ ((body_failure has_not_found e).status ≡ 401)
        ⊎ ((body_failure has_not_found e).status ≡ 405)
        ⊎ ((body_failure has_not_found e).status ≡ 500)
    helper = ground (arith, not_found_domain e)

respond_outcome :
    (has_not_found : Bool) (status : ℕ) (r : Result WalletView)
    → IsDomainOnly r
    → body_respond has_not_found status r ≡ outcome status r
unfolding body_respond body_failure outcome IsDomainOnly
respond_outcome has_not_found status (ok v) safe = refl
respond_outcome has_not_found status (err e) safe = rw safe refl

module _ {S O A : Type 0} (loads : Text → Option Json) (status : ℕ) (required : List String)
    (view : BodyView O A) (call : A → Exec S WalletView) (r : BodyRequest) (s : S) where
  -- Either the view reads the arguments of a call from the request, and answers by the outcome of
  -- that call; or it reads none, and refuses.
  unfoldable pub IsAnswered : Result Response × S → Type 0
  IsAnswered out =
      ((a : A) × Reads loads required view r a
        × (out ≡ (ok (outcome status (call a s).0), (call a s).1)))
      ⊎ (((a : A) → ¬ Reads loads required view r a) × IsRefused s out)

module _ {S O A : Type 0} (loads : Text → Option Json) (view : BodyView O A)
    (call : A → Exec S WalletView) (safe : (a : A) → IsSafe (call a)) (r : BodyRequest) (s : S)
    (posted : r.is_post ≡ true) (authenticated : is_authenticated r.request ≡ true) where
  by_read :
      (json : Json) (loaded : loads r.body ≡ some json)
      (complete : all_in view.required json ≡ ok true) (before : O)
      (read_before : view.outer json ≡ ok before) (x : Result A)
      → view.inner r.user_id before json ≡ x
      → IsAnswered loads view.status view.required view call r s
          (ok (answer_read loads view call x s).0, (answer_read loads view call x s).1)
  unfolding IsAnswered answer_read IsSafe
  by_read json loaded complete before read_before (ok a) h = inl (
    a,
    record {
      posted = posted;
      authenticated = authenticated;
      json = json;
      loaded = loaded;
      complete = complete;
      before = before;
      read_before = read_before;
      read = h;
    },
    ap (λ p. (ok p, (call a s).1))
        (respond_outcome view.has_not_found view.status (call a s).0 (safe a s)),
  )
  by_read json loaded complete before read_before (err e) h =
      inr ((λ a reads. cc), body_failure-IsRefused s view.has_not_found e)

  by_outer :
      (json : Json) (loaded : loads r.body ≡ some json)
      (complete : all_in view.required json ≡ ok true) (x : Result O)
      → view.outer json ≡ x
      → IsAnswered loads view.status view.required view call r s
          (answer_outer loads view call r.user_id json x s)
  unfolding IsAnswered answer_outer IsRefused
  by_outer json loaded complete (err e) h = inr ((λ a reads. cc), refl)
  by_outer json loaded complete (ok before) h =
      by_read json loaded complete before h (view.inner r.user_id before json) refl

  by_fields :
      (json : Json) (loaded : loads r.body ≡ some json) (x : Result Bool)
      → all_in view.required json ≡ x
      → IsAnswered loads view.status view.required view call r s
          (answer_fields loads view call r.user_id json x s)
  unfolding IsAnswered answer_fields IsRefused
  by_fields json loaded (err e) h = inr ((λ a reads. cc), refl)
  by_fields json loaded (ok false) h = inr ((λ a reads. cc), (refl, inl refl))
  by_fields json loaded (ok true) h = by_outer json loaded h (view.outer json) refl

  by_body :
      (x : Option Json)
      → loads r.body ≡ x
      → IsAnswered loads view.status view.required view call r s
          (answer_body loads view call r.user_id x s)
  unfolding IsAnswered answer_body IsRefused
  by_body none h = inr ((λ a reads. cc), (refl, inl refl))
  by_body (some json) h = by_fields json h (all_in view.required json) refl

module _ {S O A : Type 0} (loads : Text → Option Json) (view : BodyView O A)
    (call : A → Exec S WalletView) (safe : (a : A) → IsSafe (call a)) (r : BodyRequest)
    (s : S) where
  serve_body-posted :
      r.is_post ≡ true
      → is_authenticated r.request ≡ true
      → serve_body loads view call r s ≡ answer_body loads view call r.user_id (loads r.body) s
  unfolding serve_body
  serve_body-posted posted somebody = ground arith

  serve_body-nobody :
      r.is_post ≡ true
      → is_authenticated r.request ≡ false
      → serve_body loads view call r s ≡ (ok (answer 401 "Authentication required"), s)
  unfolding serve_body
  serve_body-nobody posted nobody = ground arith

  serve_body-other :
      r.is_post ≡ false → serve_body loads view call r s ≡ (ok (answer 405 "Method not allowed"), s)
  unfolding serve_body
  serve_body-other other = ground arith

  pub serve_body-IsAnswered :
      IsAnswered loads view.status view.required view call r s (serve_body loads view call r s)
  unfolding IsAnswered IsRefused
  serve_body-IsAnswered = elim (Bool-cases r.is_post) [
    | inr other ↦ inr ((λ a reads. cc), rw (serve_body-other other) (refl, inr (inr (inl refl))))
    | inl posted ↦ elim (Bool-cases (is_authenticated r.request)) [
      | inr nobody ↦
          inr ((λ a reads. cc), rw (serve_body-nobody posted nobody) (refl, inr (inl refl)))
      | inl somebody ↦
          subst (IsAnswered loads view.status view.required view call r s)
            (sym (serve_body-posted posted somebody))
            (by_body loads view call safe r s posted somebody (loads r.body) refl)
    ]
  ]

module _ {S : Type 0} (loads : Text → Option Json) (C : Codec) (commands : CommandService S)
    (get_wallet : Option Uuid → Exec S WalletView) where
  -- For any services, each of the six views either reads the arguments of its handler's method from
  -- the request, that is from a POST of a user with a JSON body that has the required fields (none
  -- for `create_wallet`, the wallet's id and the amount for the others, and with them the booking's
  -- id for a payment and the reason for an adjustment) in their formats, and then runs the method on them, and answers 201 (`create_wallet`) or 200 when it
  -- returns and 400 whatever it raises; or it can read none, and then it changes nothing and
  -- answers 400, 401, 405 or 500, or lets an exception out. So 404 is never answered.
  pub views-IsAnswered :
      (r : BodyRequest) (s : S)
      → IsAnswered loads 201 []
          (create_body C)
          (create_call commands get_wallet)
          r
          s
          (create_view loads C commands get_wallet r s)
        × IsAnswered loads 200
            ("wallet_id" ∷ "amount" ∷ [])
            (movement_body C "reference_id")
            (deposit_call commands get_wallet)
            r
            s
            (deposit_view loads C commands get_wallet r s)
        × IsAnswered loads 200
            ("wallet_id" ∷ "amount" ∷ [])
            (movement_body C "reference_id")
            (withdraw_call commands get_wallet)
            r
            s
            (withdraw_view loads C commands get_wallet r s)
        × IsAnswered loads 200
            ("wallet_id" ∷ "amount" ∷ "booking_id" ∷ [])
            (payment_body C)
            (pay_call commands get_wallet)
            r
            s
            (pay_view loads C commands get_wallet r s)
        × IsAnswered loads 200
            ("wallet_id" ∷ "amount" ∷ [])
            (movement_body C "booking_id")
            (refund_call commands get_wallet)
            r
            s
            (refund_view loads C commands get_wallet r s)
        × IsAnswered loads 200
            ("wallet_id" ∷ "amount" ∷ "reason" ∷ [])
            (adjustment_body C)
            (adjustment_call commands get_wallet)
            r
            s
            (adjustment_view loads C commands get_wallet r s)
  unfolding create_body movement_body payment_body adjustment_body create_call deposit_call
      withdraw_call pay_call refund_call adjustment_call create_view deposit_view withdraw_view
      pay_view refund_view adjustment_view
  views-IsAnswered r s = (
    serve_body-IsAnswered loads (create_body C) (create_call commands get_wallet)
        (λ a.
          (methods-IsSafe commands get_wallet (some a.user_id) (a.wallet_id) none a.currency []
            nan).0)
        r s,
    serve_body-IsAnswered loads (movement_body C "reference_id") (deposit_call commands get_wallet)
        (λ a.
          (methods-IsSafe commands get_wallet none (some a.wallet_id) a.reference [] [] a.amount).1)
        r s,
    serve_body-IsAnswered loads (movement_body C "reference_id") (withdraw_call commands get_wallet)
        (λ a.
          (methods-IsSafe commands get_wallet none (some a.wallet_id) a.reference [] [] a.amount).2)
        r s,
    serve_body-IsAnswered loads (payment_body C) (pay_call commands get_wallet)
        (λ a.
          (methods-IsSafe commands get_wallet none (some a.wallet_id) a.reference [] [] a.amount).3)
        r s,
    serve_body-IsAnswered loads (movement_body C "booking_id") (refund_call commands get_wallet)
        (λ a.
          (methods-IsSafe commands get_wallet none (some a.wallet_id) a.reference [] [] a.amount).4)
        r s,
    serve_body-IsAnswered loads (adjustment_body C) (adjustment_call commands get_wallet)
        (λ a.
          (methods-IsSafe commands get_wallet none (some a.wallet_id) a.reference [] a.reason
            a.amount).5)
        r s,
  )
