-- ===== src/Decimal/Tests.antt =====
-- The rounding of 12.34565, a tie between two ten-thousandths.
use microservice_wallet_serv.Base.{◌+◌, ◌*◌, ◌^◌, ◌≤◌, ◌≡◌, refl, false}
use microservice_wallet_serv.Base.Int.{pos, negsuc}
use microservice_wallet_serv.Errors.{ok}
use microservice_wallet_serv.Decimal.{finite, quantize}
use microservice_wallet_serv.Decimal.Rounding.{magnitude, with_sign, quantize_nearest}

to_even : quantize (finite false 1234565 (negsuc 4)) ≡ ok (pos 123456)
unfolding quantize
to_even = refl

quantize_nearest_example :
    (pos 123456 ≡ with_sign false 123456)
    × (2 * (magnitude (pos 123456) * 10 ^ 1) ≤ 2 * 1234565 + 10 ^ 1)
    × (2 * 1234565 ≤ 2 * (magnitude (pos 123456) * 10 ^ 1) + 10 ^ 1)
unfolding magnitude
quantize_nearest_example = quantize_nearest false 1234565 1 (pos 123456) to_even
