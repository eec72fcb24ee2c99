-- ===== src/Event/Samples.antt =====
-- A codec that meets the laws of `Codec`, and values for the tests of the other components.
use microservice_wallet_serv.Base.{
  ℕ, zero, suc, Option, ◌≡◌, refl, false, true, none, some, [], ◌∷◌,
}
use microservice_wallet_serv.Base.Int.{pos, negsuc}
use microservice_wallet_serv.Base.Text.{Text, text}
use microservice_wallet_serv.Decimal.{Decimal, finite, infinite, nan}
use microservice_wallet_serv.Event.{WalletEvent, adjusted}
use microservice_wallet_serv.Event.Json.{Codec}
use microservice_wallet_serv.Event.Serial.{Fresh}

-- Each object is written as a few code points.
abbrev pub decimal_code : Decimal → Text
decimal_code (finite false c (pos n)) = 0 ∷ c ∷ n ∷ []
decimal_code (finite true c (pos n)) = 1 ∷ c ∷ n ∷ []
decimal_code (finite false c (negsuc n)) = 2 ∷ c ∷ n ∷ []
decimal_code (finite true c (negsuc n)) = 3 ∷ c ∷ n ∷ []
decimal_code (infinite false) = 4 ∷ []
decimal_code (infinite true) = 5 ∷ []
decimal_code nan = 6 ∷ []

abbrev pub head_code : Text → Option ℕ
head_code (n ∷ []) = some n
head_code _ = none

abbrev pub decode_decimal : Text → Option Decimal
decode_decimal (zero ∷ c ∷ n ∷ []) = some (finite false c (pos n))
decode_decimal (suc zero ∷ c ∷ n ∷ []) = some (finite true c (pos n))
decode_decimal (suc (suc zero) ∷ c ∷ n ∷ []) = some (finite false c (negsuc n))
decode_decimal (suc (suc (suc zero)) ∷ c ∷ n ∷ []) = some (finite true c (negsuc n))
decode_decimal (suc (suc (suc (suc zero))) ∷ []) = some (infinite false)
decode_decimal (suc (suc (suc (suc (suc zero)))) ∷ []) = some (infinite true)
decode_decimal (suc (suc (suc (suc (suc (suc zero))))) ∷ []) = some nan
decode_decimal _ = none

pub decode-decimal_code : (d : Decimal) → decode_decimal (decimal_code d) ≡ some d
decode-decimal_code (finite false c (pos n)) = refl
decode-decimal_code (finite true c (pos n)) = refl
decode-decimal_code (finite false c (negsuc n)) = refl
decode-decimal_code (finite true c (negsuc n)) = refl
decode-decimal_code (infinite false) = refl
decode-decimal_code (infinite true) = refl
decode-decimal_code nan = refl

abbrev pub sample_codec : Codec
sample_codec = record {
  uuid_str = λ u. u ∷ [];
  uuid_of = head_code;
  uuid_of-uuid_str = λ u. refl;
  uuid_str_truthy = λ u. refl;
  decimal_str = decimal_code;
  decimal_of = decode_decimal;
  decimal_of-decimal_str = decode-decimal_code;
  isoformat = λ t. t ∷ [];
  fromisoformat = head_code;
  fromisoformat-isoformat = λ t. refl;
}

abbrev pub sample_fresh : Fresh
sample_fresh = record { new_id = 900; now = 1000 }

-- an adjustment of 2.50 by admin 5
abbrev pub adjustment_event : WalletEvent
adjustment_event = record {
  meta = record { event_id = 1; occurred_at = 50; schema_version = 1; wallet_id = 7; user_id = 3 };
  body = adjusted (finite false 250 (negsuc 1)) (text "USD") (text "goodwill") (some 5);
}
