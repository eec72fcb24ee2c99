-- ===== src/Decimal.antt =====
-- Python's `decimal.Decimal` in the default context, as far as the service uses it, and the
-- amount checks of infrastructure/projectors/wallet/projector.py.
pub mod Rounding
mod Tests
use microservice_wallet_serv.Base.{
  ℕ, zero, suc, ◌+◌, ◌-◌, ◌*◌, ◌/◌, ◌%◌, ◌^◌, Bool, true, false, ◌||◌, ltb, leb, ◌==◌,
  if◌then◌else◌,
}
use microservice_wallet_serv.Base.Int.{ℤ, pos, negsuc, ltb_ℤ}
use microservice_wallet_serv.Errors.{
  Result, ok, err, invalid_operation, value_error, ◌>>=◌, raise_if,
}

-- `finite s c e` is (-1)^s * c * 10^e; `nan` is the quiet NaN
pub data Decimal : Type 0 where
  finite : Bool → ℕ → ℤ → Decimal
  infinite : Bool → Decimal
  nan : Decimal

-- amount <= Decimal("0"), which signals on a NaN
unfoldable pub le_zero : Decimal → Result Bool
le_zero (finite s c e) = ok (s || c == 0)
le_zero (infinite s) = ok s
le_zero nan = err invalid_operation

-- amount == Decimal("0")
unfoldable pub is_zero : Decimal → Bool
is_zero (finite s c e) = c == 0
is_zero (infinite s) = false
is_zero nan = false

-- amount.is_finite()
unfoldable pub is_finite : Decimal → Bool
is_finite (finite s c e) = true
is_finite (infinite s) = false
is_finite nan = false

-- the context's precision of 28 digits
abbrev pub precision_limit : ℕ
precision_limit = 10 ^ 28

-- c / d to the nearest integer, a tie to the even one: ROUND_HALF_EVEN
unfoldable pub half_even : ℕ → ℕ → ℕ
half_even c d =
    let q = c / d in
    let r = c % d in if ltb (2 * r) d then q else if ltb d (2 * r) then q + 1 else q + q % 2

-- how many digits of the coefficient are past the precision
unfoldable pub excess_digits : ℕ → ℕ → ℕ
excess_digits zero c = 0
excess_digits (suc fuel) c =
    let rest = excess_digits fuel (c / 10) in if ltb c precision_limit then 0 else suc rest

abbrev add_exponent : ℤ → ℕ → ℤ
add_exponent (pos n) k = pos (n + k)
add_exponent (negsuc n) k = if leb (n + 1) k then pos (k - (n + 1)) else negsuc (n - k)

-- the rounding of a result to the context's precision; a coefficient that rounds up to 29 digits
-- loses one more, which is a zero
unfoldable pub round_to_context : Bool → ℕ → ℤ → Decimal
unfolding half_even excess_digits
round_to_context s c e =
    let k = excess_digits c c in
    let c' = half_even c (10 ^ k) in
    if k == 0
    then finite s c e
    else if ltb c' precision_limit
    then finite s c' (add_exponent e k)
    else finite s (c' / 10) (add_exponent e (k + 1))

-- abs(amount)
unfoldable pub abs : Decimal → Decimal
unfolding round_to_context
abs (finite s c e) = round_to_context false c e
abs (infinite s) = infinite false
abs nan = nan

-- the coefficient of c * 10^e at exponent -4
unfoldable pub rescale : ℕ → ℤ → ℕ
unfolding half_even
rescale c (pos n) = c * 10 ^ (n + 4)
rescale c (negsuc n) = if leb n 3 then c * 10 ^ (3 - n) else half_even c (10 ^ (n - 3))

-- a signed number of ten-thousandths
unfoldable pub signed : Bool → ℕ → ℤ
signed true (suc n) = negsuc n
signed true zero = pos 0
signed false n = pos n

-- `_quantize`: the amount in ten-thousandths. `amount.quantize` signals when the result has more
-- digits than the precision.
unfoldable pub quantize : Decimal → Result ℤ
unfolding rescale signed
quantize (finite s c e) =
    let q = rescale c e in
    if ltb q precision_limit then ok (signed s q) else err (value_error "Cannot quantize amount")
quantize (infinite s) = err (value_error "Amount must be a finite number")
quantize nan = err (value_error "Amount must be a finite number")

-- 1000000000.0000 in ten-thousandths
abbrev pub max_amount : ℤ
max_amount = pos (10 ^ 13)

abbrev pub min_amount : ℤ
min_amount = negsuc (10 ^ 13 - 1)

-- `_validate_amount`
unfoldable pub validate_amount : Decimal → Result (Unit {0})
unfolding quantize
validate_amount amount = do
  q ← quantize amount
  raise_if (ltb_ℤ q min_amount || ltb_ℤ max_amount q) (value_error "Amount outside allowed range")
