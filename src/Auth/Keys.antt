-- ===== src/Auth/Keys.antt =====
-- Which keys the cache of wallet_service/auth/jwt_verifier.py holds, and grants.
use mathlib.Core.Path.{subst}
use microservice_wallet_serv.Base.{
  ℕ, ◌-◌, ◌<◌, ◌≡◌, refl, sym, ap, ◌∙◌, inl, inr, Bool, true, Option, none, some, arith, Bool-cases,
  if◌then◌else◌,
}
use microservice_wallet_serv.Base.Text.{Text, strip, starts_with}
use microservice_wallet_serv.Errors.{Result, ok, err}
use microservice_wallet_serv.Auth.{
  Checked, granted, denied, raised, KeyCache, key_header, check_key, store_key, is_fresh,
  get_public_key,
}

-- the key that the server gave at a time
pub record IsKeyOf (fetch : ℕ → Result Text) (at : ℕ) (k : Text) : Type 0 where
  pub response : Text
  pub fetched : fetch at ≡ ok response
  pub stripped : strip response ≡ k
  pub headed : starts_with (strip response) key_header ≡ true

-- a key in the cache is the one that the server gave when it was fetched
unfoldable pub IsFetched : (ℕ → Result Text) → KeyCache → Type 0
IsFetched fetch cache = (k : Text) → cache.key ≡ some k → IsKeyOf fetch cache.fetched_at k

-- a key that the server gave less than five minutes ago
pub record IsCurrent (fetch : ℕ → Result Text) (now : ℕ) (k : Text) : Type 0 where
  pub at : ℕ
  pub given : IsKeyOf fetch at k
  pub recent : now - at < 300

module _ (fetch : ℕ → Result Text) where
  checked_key :
      (now : ℕ) (r : Result Text) (k : Text)
      → fetch now ≡ r
      → check_key fetch r ≡ granted k
      → IsKeyOf fetch now k
  unfolding check_key
  checked_key now (err e) k same h = cc
  checked_key now (ok body) k same h = elim (Bool-cases (starts_with (strip body) key_header)) [
    | inl headed ↦
        let whole : granted (strip body) ≡ granted k = sym (ap pick headed) ∙ h in
        record { response = body; fetched = same; stripped = cc; headed = headed }
    | inr other ↦
        let none_granted : denied "Invalid public key format" ≡ granted k =
          sym (ap pick other) ∙ h in
        absurd cc
  ]
    where
      pick : Bool → Checked Text
      pick b = if b then granted (strip body) else denied "Invalid public key format"

  -- what a fetch leaves and grants
  stored_key :
      (now : ℕ) (cache : KeyCache) (c : Checked Text)
      → ((k : Text) → c ≡ granted k → IsKeyOf fetch now k)
      → IsFetched fetch cache
      → ((k : Text) → (store_key fetch now cache c).0 ≡ granted k → IsCurrent fetch now k)
        × IsFetched fetch (store_key fetch now cache c).1
  unfolding store_key IsFetched
  stored_key now cache (granted k) good fetched = (
    (λ j h. record { at = now; given = good j h; recent = omega arith }),
    (λ j h. good j (ap granted cc)),
  )
  stored_key now cache (denied message) good fetched = ((λ j h. cc), fetched)
  stored_key now cache (raised e) good fetched = ((λ j h. cc), fetched)

  fresh_recent :
      (now : ℕ) (cache : KeyCache) (k : Text)
      → is_fresh fetch now cache k ≡ true
      → now - cache.fetched_at < 300
  unfolding is_fresh
  fresh_recent now cache k h = ground (arith, h)

  -- the key that is granted is current, and the cache stays right
  pub get_public_key_lem :
      (now : ℕ) (cache : KeyCache)
      → IsFetched fetch cache
      → ((k : Text) → (get_public_key fetch now cache).0 ≡ granted k → IsCurrent fetch now k)
        × IsFetched fetch (get_public_key fetch now cache).1
  unfolding get_public_key IsFetched
  get_public_key_lem now cache fetched = helper cache.key refl
    where
      stored :
          ((k : Text)
            → (store_key fetch now cache (check_key fetch (fetch now))).0 ≡ granted k
            → IsCurrent fetch now k)
          × IsFetched fetch (store_key fetch now cache (check_key fetch (fetch now))).1
      stored =
          stored_key now cache (check_key fetch (fetch now))
            (λ k h. checked_key now (fetch now) k refl h) fetched

      pick : Option Text → Checked Text × KeyCache
      pick o =
          let fetched' = store_key fetch now cache (check_key fetch (fetch now)) in
          elim o [
            | none ↦ fetched'
            | some k ↦ if is_fresh fetch now cache k then (granted k, cache) else fetched'
          ]

      helper :
          (o : Option Text)
          → cache.key ≡ o
          → ((k : Text) → (pick o).0 ≡ granted k → IsCurrent fetch now k)
            × IsFetched fetch (pick o).1
      helper none same = stored
      helper (some k) same = elim (Bool-cases (is_fresh fetch now cache k)) [
        | inl fresh ↦
            let current : IsCurrent fetch now k = record {
              at = cache.fetched_at;
              given = fetched k same;
              recent = fresh_recent now cache k fresh;
            } in
            rw fresh ((λ j h. subst (IsCurrent fetch now) (same_key h) current), fetched)
        | inr stale ↦ rw stale stored
      ]
        where
          same_key : {j : Text} → granted k ≡ granted j → k ≡ j
          same_key h = cc
