-- ===== src/Coerce/Tests.antt =====
-- Examples of the coercions.
use audd_cpp.Prelude.{◌≡◌, refl, arith, ◌-◌, ◌^◌, some}
use audd_cpp.Prelude.Int.{pos, negsuc}
use audd_cpp.Prelude.Decimal.{to_string}
use audd_cpp.Json.{str, unsigned}
use audd_cpp.Platform.Sample.{platform}
use audd_cpp.Coerce.{coerce_int, coerce_string}
use audd_cpp.Coerce.Numbers.{coerce_int-coerce_string, coerce_string_large}

coerce_int-coerce_string_example :
    coerce_int platform (str (to_string (pos 12))) ≡ coerce_int platform (unsigned 12)
unfolding coerce_string coerce_int
coerce_int-coerce_string_example =
    coerce_int-coerce_string platform (unsigned 12) (to_string (pos 12)) tt refl

coerce_string_large_example :
    coerce_string platform (unsigned (2 ^ 64 - 1))
    ≡ some (to_string (negsuc (2 ^ 64 - 1 - (2 ^ 64 - 1))))
coerce_string_large_example = coerce_string_large platform (2 ^ 64 - 1) (omega arith) (omega arith)
