-- ===== src/Event/Json.antt =====
-- JSON values as `event_payload` columns hold them, and the texts of ids, times and amounts.
use text.Mathlib.Text.{◌==◌ as str_eq}
use microservice_wallet_serv.Base.{
  ℕ, String, ◌≡◌, Bool, true, false, not, Option, none, some, ◌==◌, if◌then◌else◌,
}
use microservice_wallet_serv.Base.Text.{Text, is_truthy}
use microservice_wallet_serv.Errors.{Uuid}
use microservice_wallet_serv.Decimal.{Decimal}

mutual
  pub data Json : Type 0 where
    null : Json
    str : Text → Json
    num : ℕ → Json
    obj : Fields → Json

  pub data Fields : Type 0 where
    end : Fields
    field : String → Json → Fields → Fields

-- d.get(key)
unfoldable pub get : String → Fields → Option Json
get k end = none
get k (field j v fs) = if str_eq j k then some v else get k fs

-- bool(v)
unfoldable pub is_true : Json → Bool
is_true null = false
is_true (str s) = is_truthy s
is_true (num n) = not (n == 0)
is_true (obj end) = false
is_true (obj (field _ _ _)) = true

-- `str` and the parser of `UUID`, `Decimal` and aware `datetime` objects: each parser accepts what
-- `str` (for a time `isoformat`) wrote and gives the same object, and an id's text is not empty.
pub record Codec : Type 0 where
  pub uuid_str : Uuid → Text
  pub uuid_of : Text → Option Uuid
  pub uuid_of-uuid_str : (u : Uuid) → uuid_of (uuid_str u) ≡ some u
  pub uuid_str_truthy : (u : Uuid) → is_truthy (uuid_str u) ≡ true
  pub decimal_str : Decimal → Text
  pub decimal_of : Text → Option Decimal
  pub decimal_of-decimal_str : (d : Decimal) → decimal_of (decimal_str d) ≡ some d
  pub isoformat : ℕ → Text
  pub fromisoformat : Text → Option ℕ
  pub fromisoformat-isoformat : (t : ℕ) → fromisoformat (isoformat t) ≡ some t
