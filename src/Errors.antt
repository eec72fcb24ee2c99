-- ===== src/Errors.antt =====
-- The exceptions of domain/apps/wallet/exceptions.py, domain/shared/exceptions.py and
-- domain/outbox/exceptions.py that the service raises, with those of Python that it catches.
pub mod Exec
use microservice_wallet_serv.Base.{ℕ, String, Bool, true, false, Option, ◌≡◌, refl, ◌⊎◌, inl, inr}

-- a `uuid.UUID`, as its 128-bit number
abbrev pub Uuid : Type 0
Uuid = ℕ

-- An exception object with the fields that its constructor stores. `wallet_domain` is a bare
-- `WalletDomainError`, and `other` any exception class that no handler names.
pub data PyError : Type 0 where
  wallet_domain : String → PyError
  wallet_not_found : Option Uuid → Option Uuid → PyError
  wallet_closed : Uuid → String → PyError
  wallet_suspended : Uuid → String → PyError
  invalid_wallet_currency : Uuid → PyError
  value_error : String → PyError
  type_error : PyError
  key_error : String → PyError
  runtime_error : String → PyError
  not_implemented : String → PyError
  invalid_operation : PyError
  integrity_error : PyError
  data_error : PyError
  optimistic_concurrency : Uuid → ℕ → ℕ → PyError
  projection_violation : String → Uuid → PyError
  outbox_save : Uuid → PyError
  outbox_not_found : Uuid → PyError
  other : String → PyError

-- isinstance(exc, WalletDomainError)
unfoldable pub is_wallet_domain_error : PyError → Bool
is_wallet_domain_error (wallet_domain _) = true
is_wallet_domain_error (wallet_not_found _ _) = true
is_wallet_domain_error (wallet_closed _ _) = true
is_wallet_domain_error (wallet_suspended _ _) = true
is_wallet_domain_error (invalid_wallet_currency _) = true
is_wallet_domain_error _ = false

-- isinstance(exc, WalletNotFoundError)
unfoldable pub is_wallet_not_found : PyError → Bool
is_wallet_not_found (wallet_not_found _ _) = true
is_wallet_not_found _ = false

-- isinstance(exc, ValueError); `InvalidWalletCurrencyError` is one too
unfoldable pub is_value_error : PyError → Bool
is_value_error (value_error _) = true
is_value_error (invalid_wallet_currency _) = true
is_value_error _ = false

-- isinstance(exc, IntegrityError)
unfoldable pub is_integrity_error : PyError → Bool
is_integrity_error integrity_error = true
is_integrity_error _ = false

pub data Result {ℓ} (A : Type ℓ) : Type ℓ where
  ok : A → Result A
  err : PyError → Result A

-- an exception ends the block
infixl 5 ◌>>◌ ◌>>=◌
abbrev pub ◌>>=◌ {ℓ κ} : {X : Type ℓ} {Y : Type κ} (r : Result X) (next : X → Result Y) → Result Y
err e >>= next = err e
ok x >>= next = next x

abbrev pub ◌>>◌ {κ} : {Y : Type κ} (r : Result (Unit {0})) (next : Result Y) → Result Y
r >> next = r >>= λ _. next

-- `if b: raise e`
abbrev pub raise_if : Bool → PyError → Result (Unit {0})
raise_if true e = err e
raise_if false e = ok tt

pub Result-cases :
    {A : Type 0} (r : Result A) → ((a : A) × (r ≡ ok a)) ⊎ ((e : PyError) × (r ≡ err e))
Result-cases (ok a) = inl (a, refl)
Result-cases (err e) = inr (e, refl)
