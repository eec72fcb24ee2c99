-- ===== src/Commands/Tests.antt =====
-- A reading of pydantic's constraints, and commands constructed with it.
use microservice_wallet_serv.Base.{
  ℕ, ◌^◌, ◌≤◌, ◌<◌, ◌≡◌, refl, Bool, true, false, not, ◌&&◌, ◌||◌, none, some, arith, ltb, leb,
  length, [], ◌∷◌,
}
use microservice_wallet_serv.Base.Int.{pos, negsuc}
use microservice_wallet_serv.Base.Text.{Text, text, same_text, strip}
use microservice_wallet_serv.Errors.{ok, err, value_error}
use microservice_wallet_serv.Decimal.{Decimal, finite, infinite, nan, le_zero, rescale, quantize}
use microservice_wallet_serv.Event.Json.{null}
use microservice_wallet_serv.Commands.{
  Pydantic, IsWithin, currencies, is_one_of, normalize_currency, check_amount, check_keys, aware,
}
use microservice_wallet_serv.Commands.Messages.{
  Money, deposit_into_wallet, WalletCommand, construct,
}
use microservice_wallet_serv.Commands.Amounts.{charged, IsTenThousandths, construct_amount}

unfoldable fits : Bool → Decimal → Bool
unfolding rescale
fits gt (finite s c e) = (not gt || (not s && ltb 0 c)) && ltb (rescale c e) (10 ^ 19)
fits gt (infinite s) = false
fits gt nan = false

fits-IsWithin : (gt : Bool) (d : Decimal) → fits gt d ≡ true → IsWithin gt d
unfolding fits IsWithin
fits-IsWithin gt (finite s c e) h = ground (arith, h)
fits-IsWithin gt (infinite s) h = absurd cc
fits-IsWithin gt nan h = absurd cc

length_between :
    (lo hi : ℕ) (s : Text)
    → (leb lo (length s) && leb (length s) hi) ≡ true
    → (lo ≤ length s) × (length s ≤ hi)
length_between lo hi s h = ground (arith, h)

abbrev plain : Pydantic
plain = record {
  amount_fits = fits;
  amount_fits_within = fits-IsWithin;
  length_fits = λ lo hi s. leb lo (length s) && leb (length s) hi;
  length_fits_within = length_between;
}

-- 12.5 USD
abbrev fare : Money
fare = record { amount = finite false 125 (negsuc 0); currency = text "USD" }

abbrev top_up : WalletCommand
top_up = record {
  correlation_id = none;
  timestamp = aware 1000 (pos 120);
  body = deposit_into_wallet 1 2 fare none none;
}

abbrev top_up_made : WalletCommand
top_up_made = record {
  correlation_id = none;
  timestamp = aware 1000 (pos 0);
  body = deposit_into_wallet 1 2 fare none none;
}

top_up-made : construct plain top_up ≡ ok top_up_made
unfolding construct fits le_zero same_text
top_up-made = refl

five_places :
    check_amount (finite false 12345 (negsuc 4))
    ≡ err (value_error "Amount cannot have more than 4 decimal places.")
unfolding check_amount le_zero
five_places = refl

lower_case : normalize_currency (text "usd") ≡ ok (text "USD")
unfolding normalize_currency same_text
lower_case = refl

blank_key :
    check_keys ((text "a", null) ∷ (text " ", null) ∷ [])
    ≡ err (value_error "Metadata keys must be non-empty strings.")
unfolding check_keys strip
blank_key = refl

construct_amount_example :
    (charged top_up_made.body ≡ some fare)
    × (le_zero fare.amount ≡ ok false)
    × (is_one_of fare.currency currencies ≡ true)
    × ((q : ℕ) × (quantize fare.amount ≡ ok (pos q))
        × (0 < q)
        × (q < 10 ^ 19)
        × IsTenThousandths q fare.amount)
unfolding charged
construct_amount_example = construct_amount plain top_up top_up_made fare top_up-made refl
