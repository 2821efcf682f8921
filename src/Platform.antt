-- ===== src/Platform.antt =====
-- What the sources take from elsewhere: `double` and its conversions, and the parser and printer of
-- nlohmann/json. Nothing is assumed of them here.
pub mod Sample
use audd_cpp.Prelude.{ℕ, Bool, Option}
use audd_cpp.Prelude.Int.{ℤ}
use audd_cpp.Prelude.Text.{Text}
use audd_cpp.Json.{Json}

pub record Platform : Type 1 where
  pub Double : Type 0
  pub of_int : ℤ → Double
  pub to_int64 : Double → ℤ
  pub to_int : Double → ℤ
  pub is_finite : Double → Bool
  pub trunc : Double → Double
  pub eq : Double → Double → Bool
  pub less : Double → Double → Bool
  pub add : Double → Double → Double
  pub mul : Double → Double → Double
  pub div : Double → Double → Double
  -- `std::stod`: the value and the number of bytes consumed; `none` where it throws.
  pub stod : Text → Option (Double × ℕ)
  -- `nlohmann::json::parse`, `none` where it throws, and `dump`.
  pub parse : Text → Option (Json Double)
  pub dump : Json Double → Text
