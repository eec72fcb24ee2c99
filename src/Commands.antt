-- ===== src/Commands.antt =====
-- The command messages of domain/apps/wallet/commands.py, on the base class of
-- domain/shared/commands.py. A value here has the field's Python type already; the constraints that
-- pydantic's `Field` and `constr` check are a parameter. Any failed check is pydantic's
-- ValidationError, which is a ValueError.
pub mod Messages
pub mod Amounts
mod Tests
use microservice_wallet_serv.Base.{
  ℕ, ◌+◌, ◌^◌, ◌≤◌, ◌<◌, ◌≡◌, Bool, true, false, not, ◌&&◌, ◌||◌, Option, none, some, List, [], ◌∷◌,
  length, if◌then◌else◌,
}
use microservice_wallet_serv.Base.Int.{ℤ, pos, negsuc, ltb_ℤ}
use microservice_wallet_serv.Base.Text.{Text, text, same_text, is_truthy, strip, upper}
use microservice_wallet_serv.Errors.{
  Uuid, Result, ok, err, value_error, type_error, ◌>>=◌, ◌>>◌, raise_if,
}
use microservice_wallet_serv.Decimal.{Decimal, finite, infinite, nan, le_zero, rescale}
use microservice_wallet_serv.Event.Json.{Json}

-- What an amount within `gt=0` (where it is asked for), `max_digits=19` and `decimal_places=4` is:
-- finite, positive where asked for, and less than 10^15.
unfoldable pub IsWithin : Bool → Decimal → Type 0
unfolding rescale
IsWithin gt (finite s c e) = (gt ≡ true → (s ≡ false) × (0 < c)) × (rescale c e < 10 ^ 19)
IsWithin gt (infinite s) = ⊥
IsWithin gt nan = ⊥

-- pydantic's constraints: `Field(gt=0, max_digits=19, decimal_places=4)`, without `gt` on `false`,
-- and `min_length` and `max_length` of a text
pub record Pydantic : Type 0 where
  pub amount_fits : Bool → Decimal → Bool
  pub amount_fits_within : (gt : Bool) (d : Decimal) → amount_fits gt d ≡ true → IsWithin gt d
  pub length_fits : ℕ → ℕ → Text → Bool
  pub length_fits_within :
      (lo hi : ℕ) (s : Text) → length_fits lo hi s ≡ true → (lo ≤ length s) × (length s ≤ hi)

-- `Currency`, by its values
abbrev pub currencies : List Text
currencies =
    text "USD" ∷ text "EUR" ∷ text "GBP" ∷ text "JPY" ∷ text "CAD" ∷ text "AUD" ∷ text "RWF" ∷ []

unfoldable pub is_one_of : Text → List Text → Bool
is_one_of s [] = false
is_one_of s (t ∷ ts) = same_text s t || is_one_of s ts

-- `Currency(v)`
unfoldable pub currency_of : Text → Result Text
unfolding is_one_of
currency_of v = do
  raise_if (not (is_one_of v currencies)) (value_error "not a valid Currency")
  ok v

-- `normalize_currency`
unfoldable pub normalize_currency : Text → Result Text
unfolding currency_of upper
normalize_currency v = currency_of (upper v)

-- a time without a zone, or an instant with its zone's offset in minutes
pub data Timestamp : Type 0 where
  naive : ℕ → Timestamp
  aware : ℕ → ℤ → Timestamp

-- `ensure_utc`
unfoldable pub ensure_utc : Timestamp → Result Timestamp
ensure_utc (naive t) = err (value_error "Timestamp must be timezone-aware (UTC).")
ensure_utc (aware t offset) = ok (aware t (pos 0))

-- `v.as_tuple().exponent < -4`; the exponent of an infinity or a NaN is a text
unfoldable pub has_more_places : Decimal → Result Bool
has_more_places (finite s c e) = ok (ltb_ℤ e (negsuc 3))
has_more_places (infinite s) = err type_error
has_more_places nan = err type_error

-- `validate_amount` of the classes whose amount is positive
unfoldable pub check_amount : Decimal → Result Decimal
unfolding has_more_places
check_amount v = do
  low ← le_zero v
  raise_if low (value_error "Amount must be greater than zero.")
  more ← has_more_places v
  raise_if more (value_error "Amount cannot have more than 4 decimal places.")
  ok v

-- `validate_adjustment_amount`
unfoldable pub check_adjustment_amount : Decimal → Result Decimal
unfolding has_more_places
check_adjustment_amount v = do
  more ← has_more_places v
  raise_if more (value_error "Adjustment amount cannot have more than 4 decimal places.")
  ok v

-- `reason_not_empty` and `validate_reason`
unfoldable pub check_reason : Text → Result Text
check_reason v = do
  raise_if (not (is_truthy (strip v))) (value_error "Reason must not be empty.")
  ok (strip v)

-- `validate_metadata_keys`
unfoldable pub check_keys : List (Text × Json) → Result (Unit {0})
check_keys [] = ok tt
check_keys ((k, _) ∷ fields) =
    let rest = check_keys fields in
    if is_truthy (strip k)
    then rest
    else err (value_error "Metadata keys must be non-empty strings.")
