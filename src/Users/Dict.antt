-- ===== src/Users/Dict.antt =====
-- A dict of the program, as `UserView.from_dict` of application/external/user_view.py reads it.
use text.Mathlib.Text.{◌==◌ as str_eq}
use microservice_wallet_serv.Base.{String, List, [], ◌∷◌, if◌then◌else◌}
use microservice_wallet_serv.Errors.{Uuid, Result, ok, err, key_error}
use microservice_wallet_serv.Event.Json.{Json}

-- a value of a dict in the program: JSON, or a `UUID` object
pub data Value : Type 0 where
  json : Json → Value
  id_value : Uuid → Value

abbrev pub UserDict : Type 0
UserDict = List (String × Value)

-- data[key]
unfoldable pub index_dict : String → UserDict → Result Value
index_dict k [] = err (key_error k)
index_dict k ((j, v) ∷ data_) = let rest = index_dict k data_ in if str_eq j k then ok v else rest

-- data.get(key, default)
unfoldable pub get_or_dict : String → Value → UserDict → Value
get_or_dict k d [] = d
get_or_dict k d ((j, v) ∷ data_) =
    let rest = get_or_dict k d data_ in if str_eq j k then v else rest
