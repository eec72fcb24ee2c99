-- ===== src/Decimal/Rounding.antt =====
-- How far `_quantize` of projector.py moves an amount.
use native.Mathlib.Nat.{mod-lt, mul_comm, suc-mul, one-le-pow}
use native.Mathlib.Omega.{div_any}
use microservice_wallet_serv.Base.{
  ℕ, zero, suc, ◌+◌, ◌*◌, ◌/◌, ◌%◌, ◌^◌, ◌≤◌, ◌<◌, ◌≡◌, refl, ◌⊎◌, inl, inr, Bool, true, false,
  arith, leb, ◌-◌,
}
use microservice_wallet_serv.Base.Int.{ℤ, pos, negsuc, pos_part, neg_part}
use microservice_wallet_serv.Errors.{ok}
use microservice_wallet_serv.Decimal.{finite, half_even, rescale, signed, quantize}

-- the quotient or the next number, by the remainder
half_even-cases :
    (c d : ℕ)
    → 0 < d
    → ((half_even c d ≡ c / d) × (2 * (c % d) ≤ d))
      ⊎ ((half_even c d ≡ c / d + 1) × (d ≤ 2 * (c % d)))
unfolding half_even
half_even-cases c d h = ground (arith, mod-lt (c / d) {m = 2} (omega arith))

half_even_nearest :
    (c d : ℕ)
    → 0 < d
    → (2 * (half_even c d * d) ≤ 2 * c + d) × (2 * c ≤ 2 * (half_even c d * d) + d)
half_even_nearest c d h =
    let whole = div_any c d in
    let turned = mul_comm (c / d) d in
    let next = suc-mul (c / d) d in
    elim (half_even-cases c d h) [
      | inl (down, near) ↦ rw down (omega arith, omega arith)
      | inr (up, near) ↦
          rw up (omega (arith, mod-lt c {m = d} h), omega (arith, mod-lt c {m = d} h))
    ]

rescale_nearest :
    (c k : ℕ)
    → (2 * (rescale c (negsuc (k + 3)) * 10 ^ k) ≤ 2 * c + 10 ^ k)
      × (2 * c ≤ 2 * (rescale c (negsuc (k + 3)) * 10 ^ k) + 10 ^ k)
unfolding rescale
rescale_nearest c zero = (omega arith, omega arith)
rescale_nearest c (suc k) =
    let past : leb (suc k + 3) 3 ≡ false = ground arith in
    let places : suc k + 3 - 3 ≡ suc k = omega arith in
    rw (past, places) (half_even_nearest c (10 ^ suc k) (one-le-pow (suc k) 10 (omega arith)))

unfoldable pub magnitude : ℤ → ℕ
magnitude q = pos_part q + neg_part q

-- n, or -n where the sign says so
unfoldable pub with_sign : Bool → ℕ → ℤ
with_sign false n = pos n
with_sign true zero = pos 0
with_sign true (suc n) = negsuc n

signed_lem : (s : Bool) (n : ℕ) → signed s n ≡ with_sign s n
unfolding signed with_sign
signed_lem false n = refl
signed_lem true zero = refl
signed_lem true (suc n) = refl

magnitude-signed : (s : Bool) (n : ℕ) → magnitude (signed s n) ≡ n
unfolding magnitude signed
magnitude-signed true zero = refl
magnitude-signed true (suc n) = omega arith
magnitude-signed false n = omega arith

quantize_ok :
    (s : Bool) (c : ℕ) (e q : ℤ) → quantize (finite s c e) ≡ ok q → q ≡ signed s (rescale c e)
unfolding quantize
quantize_ok s c e q h = ground arith

-- `_quantize` moves an amount with four decimal places or more by at most half of a ten-thousandth,
-- and keeps its sign. For the sign `s`, the coefficient `c` at exponent -(k + 4) and the result `q`
-- in ten-thousandths, `q` is its magnitude with the sign `s`, and twice that magnitude times 10^k is
-- within 10^k of twice `c`.
pub quantize_nearest :
    (s : Bool) (c k : ℕ) (q : ℤ)
    → quantize (finite s c (negsuc (k + 3))) ≡ ok q
    → (q ≡ with_sign s (magnitude q))
      × (2 * (magnitude q * 10 ^ k) ≤ 2 * c + 10 ^ k)
      × (2 * c ≤ 2 * (magnitude q * 10 ^ k) + 10 ^ k)
quantize_nearest s c k q h =
    let near = rescale_nearest c k in
    rw (quantize_ok s c (negsuc (k + 3)) q h, magnitude-signed s (rescale c (negsuc (k + 3))))
      (signed_lem s (rescale c (negsuc (k + 3))), near.0, near.1)
